-- ===== src/Prelude/JsSet.antt =====
-- JavaScript's `Set<string>`: the members in order of insertion, each once. `includes` of an array
-- is the same test.
pub mod Filter
pub mod Size
use Prim.Native.Nat.{ℕ, zero, suc, ◌+◌, ◌≤◌, ◌<◌}
use Prim.Native.String.{String}
use mathlib.Core.Path.{◌≡◌, refl}
use mathlib.Core.Logic.{◌≢◌, ◌⊎◌, inl, inr}
use mathlib.Core.Bool.{Bool, true, false, not, ◌&&◌, ◌||◌}
use mathlib.Core.List.{List, [], ◌∷◌, ◌++◌}
use native.Mathlib.Omega.{arith}
use text.Mathlib.Text.{◌==◌}
use text.Mathlib.TextEquality.{eq_iff}
use tsymbiote.Prelude.Tests.{if◌then◌else◌, Bool-cases}
use tsymbiote.Prelude.Lists.{length, filter}

abbrev pub JsSet : Type 0
JsSet = List String

-- s.has(a), xs.includes(a)
unfoldable pub has : List String → String → Bool
has [] a = false
has (x ∷ xs) a = (x == a) || has xs a

-- s.add(a)
unfoldable pub add : JsSet → String → JsSet
unfolding has
add s a = if has s a then s else s ++ a ∷ []

-- s.delete(a)
unfoldable pub delete : JsSet → String → JsSet
delete [] a = []
delete (x ∷ xs) a = let rest = delete xs a in if x == a then rest else x ∷ rest

add_all : JsSet → List String → JsSet
add_all s [] = s
add_all s (x ∷ xs) = add_all (add s x) xs

-- new Set(xs)
unfoldable pub from_list : List String → JsSet
unfolding add_all add
from_list xs = add_all [] xs

abbrev pub IsUnique : JsSet → Type 0
IsUnique [] = Unit
IsUnique (x ∷ xs) = (has xs x ≡ false) × IsUnique xs

abbrev pub Subset : List String → List String → Type 0
Subset xs ys = (a : String) → has xs a ≡ true → has ys a ≡ true

pub has-append : (xs ys : List String) (a : String) → has (xs ++ ys) a ≡ (has xs a || has ys a)
unfolding has
has-append [] ys a = refl
has-append (x ∷ xs) ys a = ground (arith, has-append xs ys a)

pub has-add : (s : JsSet) (b a : String) → has (add s b) a ≡ ((b == a) || has s a)
unfolding add
has-add s b a = elim (Bool-cases (has s b)) [
  | inl old ↦ rw old (elim (Bool-cases (b == a)) [
    | inl e ↦ rw (← (eq_iff b a).0 e) (ground arith)
    | inr n ↦ ground arith
  ])
  | inr new ↦ rw (new, has-append) (ground arith)
]

pub has-delete : (s : JsSet) (b a : String) → has (delete s b) a ≡ (not (b == a) && has s a)
unfolding has delete
has-delete [] b a = ground arith
has-delete (x ∷ xs) b a = ground (arith, has-delete xs b a, eq_iff x b, eq_iff x a, eq_iff b a)

has-add_all :
    (s : JsSet) (xs : List String) (a : String) → has (add_all s xs) a ≡ (has s a || has xs a)
unfolding add_all
has-add_all s [] a = unfold has in ground arith
has-add_all s (x ∷ xs) a =
    rw (has-add_all (add s x) xs a) (rw (has-add s x a) (unfold has in ground arith))

pub has-from_list : (xs : List String) (a : String) → has (from_list xs) a ≡ has xs a
unfolding from_list
has-from_list xs a = rw (has-add_all [] xs a) (unfold has in refl)

concat-IsUnique : (s : JsSet) (a : String) → has s a ≡ false → IsUnique s → IsUnique (s ++ a ∷ [])
unfolding has
concat-IsUnique [] a h u = (refl, tt)
concat-IsUnique (x ∷ xs) a h (n, u) = (
  rw (has-append xs (a ∷ []) x) (ground (arith, eq_iff a x, eq_iff x a)),
  concat-IsUnique xs a (ground arith) u,
)

pub add-IsUnique : (s : JsSet) (a : String) → IsUnique s → IsUnique (add s a)
unfolding add
add-IsUnique s a u = elim (Bool-cases (has s a)) [
  | inl old ↦ rw old u
  | inr new ↦ rw new (concat-IsUnique s a new u)
]

pub delete-IsUnique : (s : JsSet) (a : String) → IsUnique s → IsUnique (delete s a)
unfolding delete
delete-IsUnique [] a u = tt
delete-IsUnique (x ∷ xs) a (n, u) = elim (Bool-cases (x == a)) [
  | inl e ↦ rw e (delete-IsUnique xs a u)
  | inr e ↦ rw e (rw (has-delete xs a x) (ground (arith, n)), delete-IsUnique xs a u)
]

add_all-IsUnique : (s : JsSet) (xs : List String) → IsUnique s → IsUnique (add_all s xs)
unfolding add_all
add_all-IsUnique s [] u = u
add_all-IsUnique s (x ∷ xs) u = add_all-IsUnique (add s x) xs (add-IsUnique s x u)

pub from_list-IsUnique : (xs : List String) → IsUnique (from_list xs)
unfolding from_list
from_list-IsUnique xs = add_all-IsUnique [] xs tt
