-- ===== src/Prelude/JsSet/Filter.antt =====
-- Membership of filtered and mapped lists.
use Prim.Native.String.{String}
use mathlib.Core.Path.{◌≡◌}
use mathlib.Core.Logic.{inl, inr}
use mathlib.Core.Bool.{Bool, true, ◌&&◌}
use mathlib.Core.List.{List, [], ◌∷◌, map}
use native.Mathlib.Omega.{arith}
use text.Mathlib.Text.{◌==◌}
use text.Mathlib.TextEquality.{eq_iff}
use text.Mathlib.TextPositions.{eq_refl}
use tsymbiote.Prelude.Tests.{Bool-cases}
use tsymbiote.Prelude.Lists.{filter, any, All}
use tsymbiote.Prelude.JsSet.{has, IsUnique}

filter-same : (p : String → Bool) (x a : String) → (p x && (x == a)) ≡ (p a && (x == a))
filter-same p x a = elim (Bool-cases (x == a)) [
  | inl e ↦ rw (← (eq_iff x a).0 e)
  | inr n ↦ rw n (ground arith)
]

pub has-filter :
    (p : String → Bool) (xs : List String) (a : String) → has (filter p xs) a ≡ (p a && has xs a)
unfolding has
has-filter p [] a = ground arith
has-filter p (x ∷ xs) a = ground (arith, has-filter p xs a, filter-same p x a)

pub filter-IsUnique : (p : String → Bool) (xs : List String) → IsUnique xs → IsUnique (filter p xs)
filter-IsUnique p [] u = tt
filter-IsUnique p (x ∷ xs) (n, u) = elim (Bool-cases (p x)) [
  | inl e ↦ rw e (rw (has-filter p xs x) (ground (arith, n)), filter-IsUnique p xs u)
  | inr e ↦ rw e (filter-IsUnique p xs u)
]

-- A test on some member, by a member.
pub any_of_has :
    (p : String → Bool) (xs : List String) (a : String)
    → has xs a ≡ true
    → p a ≡ true
    → any p xs ≡ true
unfolding has
any_of_has p [] a h e = ground arith
any_of_has p (x ∷ xs) a h e = ground (arith, any_of_has p xs a, filter-same p x a)

pub has_of_any :
    (p : String → Bool) (xs : List String)
    → any p xs ≡ true
    → (a : String) × (has xs a ≡ true) × (p a ≡ true)
unfolding has
has_of_any p [] h = absurd (ground arith)
has_of_any p (x ∷ xs) h = elim (Bool-cases (p x)) [
  | inl e ↦ (x, ground (arith, eq_iff x x), e)
  | inr e ↦ let (a, i, q) = has_of_any p xs (ground arith) in (a, ground arith, q)
]

pub All-map :
    {A : Type 0} (P : A → Type 0) (f : String → A) (xs : List String)
    → ((i : String) → has xs i ≡ true → P (f i))
    → All P (map f xs)
unfolding has
All-map P f [] h = tt
All-map P f (x ∷ xs) h =
    (h x (ground (arith, eq_refl x)), All-map P f xs (λ i m. h i (ground (arith, m))))

pub has_of_filter :
    (p : String → Bool) (xs : List String) (a : String)
    → has (filter p xs) a ≡ true
    → has xs a ≡ true
has_of_filter p xs a m = ground (arith, m, has-filter p xs a)
