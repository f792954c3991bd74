-- ===== src/Prelude/JsSet/Size.antt =====
-- Counting the members of a set.
use Prim.Native.Nat.{suc, ◌+◌, ◌≤◌}
use Prim.Native.String.{String}
use mathlib.Core.Path.{◌≡◌}
use mathlib.Core.Logic.{inl, inr}
use mathlib.Core.Bool.{true}
use mathlib.Core.List.{List, [], ◌∷◌}
use native.Mathlib.Omega.{arith}
use text.Mathlib.TextEquality.{eq_iff}
use tsymbiote.Prelude.Tests.{Bool-cases}
use tsymbiote.Prelude.Lists.{length}
use tsymbiote.Prelude.JsSet.{has, delete, IsUnique, Subset, has-delete}

length-delete-le : (ys : List String) (a : String) → length (delete ys a) ≤ length ys
unfolding delete
length-delete-le [] a = omega arith
length-delete-le (y ∷ ys) a = ground (arith, length-delete-le ys a)

length-delete-lt :
    (ys : List String) (a : String) → has ys a ≡ true → length (delete ys a) + 1 ≤ length ys
unfolding has delete
length-delete-lt [] a h = ground arith
length-delete-lt (y ∷ ys) a h = ground (arith, length-delete-le ys a, length-delete-lt ys a)

-- A set whose members all lie in `ys` is no longer than `ys`.
pub size-le_of_Subset : (xs ys : List String) → IsUnique xs → Subset xs ys → length xs ≤ length ys
unfolding has
size-le_of_Subset [] ys u h = omega arith
size-le_of_Subset (x ∷ xs) ys (new, u) h = omega (
  arith,
  length-delete-lt ys x (h x (ground (arith, eq_iff x x))),
  size-le_of_Subset xs (delete ys x) u
      (λ a i. rw (has-delete ys x a) (ground (arith, h a, eq_iff x a))),
)

-- A set inside `ys` that is as long as `ys` has all of `ys`.
pub Subset_of_size :
    (xs ys : List String) → IsUnique xs → Subset xs ys → length ys ≤ length xs → Subset ys xs
unfolding has
Subset_of_size xs ys u h le a i = elim (Bool-cases (has xs a)) [
  | inl there ↦ there
  | inr gone ↦
      let longer : suc (length xs) ≤ length ys =
        size-le_of_Subset (a ∷ xs) ys (gone, u) (λ b j. ground (arith, h b, eq_iff a b)) in
      absurd (omega arith)
]
