-- ===== src/Js/Shapes.antt =====
-- The types of TypeScript that the service declares for its answers, as tests on values.
use tsymbiote.Prelude.{
  String, ◌≡◌, Bool, true, false, ◌&&◌, ◌||◌, ◌==◌, eq_iff, Bool-cases, inl, inr, and-true, List,
  [], ◌∷◌, not,
}
use tsymbiote.Js.{
  Js, undefined, null, bool, number, string, array, object, Elements, no_element, element, Members,
  no_member, member, is_undefined, lookup, field,
}

abbrev pub is_boolean : Js → Bool
is_boolean (bool b) = true
is_boolean x = false

abbrev pub is_number : Js → Bool
is_number (number n) = true
is_number x = false

abbrev pub is_string : Js → Bool
is_string (string s) = true
is_string x = false

abbrev pub is_any : Js → Bool
is_any x = true

-- What React shows as a text, or not at all.
unfoldable pub is_plain : Js → Bool
is_plain (array xs) = false
is_plain (object ms) = false
is_plain x = true

-- k?: T
unfoldable pub optional : (Js → Bool) → Js → Bool
optional p x = is_undefined x || p x

abbrev pub is_null : Js → Bool
is_null null = true
is_null x = false

-- T | null
unfoldable pub or_null : (Js → Bool) → Js → Bool
or_null p x = is_null x || p x

unfoldable pub all_elements : (Js → Bool) → Elements → Bool
all_elements p no_element = true
all_elements p (element x xs) = p x && all_elements p xs

-- T[]
unfoldable pub array_of : (Js → Bool) → Js → Bool
unfolding all_elements
array_of p (array xs) = all_elements p xs
array_of p x = false

unfoldable pub all_members : (String → Js → Bool) → Members → Bool
all_members f no_member = true
all_members f (member k v ms) = f k v && all_members f ms

-- An object each of whose members has the type that f gives for its key.
unfoldable pub object_fits : (String → Js → Bool) → Js → Bool
unfolding all_members
object_fits f (object ms) = all_members f ms
object_fits f x = false

-- Record<string, T>
unfoldable pub record_of : (Js → Bool) → Js → Bool
unfolding object_fits
record_of p x = object_fits (λ _. p) x

-- The fields that the type declares without `?`
unfoldable pub required : List String → Js → Bool
unfolding field
required [] x = true
required (k ∷ ks) x = not (is_undefined (field x k)) && required ks x

lookup-fits :
    (f : String → Js → Bool) (ms : Members) (k : String)
    → all_members f ms ≡ true
    → f k undefined ≡ true
    → f k (lookup ms k) ≡ true
unfolding lookup all_members
lookup-fits f no_member k h o = o
lookup-fits f (member j v ms) k h o =
    let (a, b) = and-true (f j v) (all_members f ms) h in
    elim (Bool-cases (j == k)) [
      | inl e ↦ rw e (rw (← (eq_iff j k).0 e) a)
      | inr e ↦ rw e (lookup-fits f ms k b o)
    ]

-- A field that may be missing has its type, if it is there.
pub field-fits :
    (f : String → Js → Bool) (x : Js) (k : String)
    → object_fits f x ≡ true
    → f k undefined ≡ true
    → f k (field x k) ≡ true
unfolding field object_fits
field-fits f undefined k h o = o
field-fits f null k h o = o
field-fits f (bool b) k h o = o
field-fits f (number n) k h o = o
field-fits f (string s) k h o = o
field-fits f (array xs) k h o = o
field-fits f (object ms) k h o = lookup-fits f ms k h o
