-- ===== src/Js.antt =====
-- The JavaScript values that the view components take as `any`: what JSON.parse gives, and
-- `undefined`. An object is its members in the order in which they are enumerated.
pub mod Jsx
pub mod Returns
pub mod Shapes
pub mod Declared
use tsymbiote.Prelude.{
  ℕ, zero, suc, ◌+◌, String, Bool, true, false, not, ◌&&◌, List, [], ◌∷◌, ◌==◌, nat_eq,
  if◌then◌else◌, length,
}
use tsymbiote.Prelude.Decimal.{show}
use tsymbiote.Prelude.Text.{codes}

-- A number as JSON writes it, without an exponent: digits / 10 ^ decimals.
pub record Number : Type 0 where
  pub negative : Bool
  pub digits : ℕ
  pub decimals : ℕ

mutual
  pub data Js : Type 0 where
    undefined null : Js
    bool : Bool → Js
    number : Number → Js
    string : String → Js
    array : Elements → Js
    object : Members → Js

  pub data Elements : Type 0 where
    no_element : Elements
    element : Js → Elements → Elements

  pub data Members : Type 0 where
    no_member : Members
    member : String → Js → Members → Members

abbrev pub whole : ℕ → Js
whole n = number (record { negative = false; digits = n; decimals = 0 })

-- if (x)
unfoldable pub truthy : Js → Bool
truthy undefined = false
truthy null = false
truthy (bool b) = b
truthy (number n) = not (nat_eq n.digits 0)
truthy (string s) = not (s == "")
truthy (array xs) = true
truthy (object ms) = true

-- x === undefined
abbrev pub is_undefined : Js → Bool
is_undefined undefined = true
is_undefined x = false

-- x === undefined || x === null, where x.k throws a TypeError
abbrev pub is_nullish : Js → Bool
is_nullish undefined = true
is_nullish null = true
is_nullish x = false

-- x === s
abbrev pub is_text : Js → String → Bool
is_text (string t) s = t == s
is_text x s = false

-- x > 0; the texts and lists that JavaScript would take for a number are left out.
unfoldable pub is_positive : Js → Bool
is_positive (bool b) = b
is_positive (number n) = not n.negative && not (nat_eq n.digits 0)
is_positive x = false

-- a || b
abbrev pub or_js : Js → Js → Js
or_js a b = if truthy a then a else b

unfoldable pub lookup : Members → String → Js
lookup no_member k = undefined
lookup (member j v ms) k = if j == k then v else lookup ms k

-- x?.k, for a name that only objects have
unfoldable pub field : Js → String → Js
unfolding lookup
field (object ms) k = lookup ms k
field x k = undefined

unfoldable pub count : Elements → ℕ
count no_element = 0
count (element x xs) = suc (count xs)

-- x.length, for an x that is not null or undefined
unfoldable pub length_js : Js → Js
unfolding lookup count
length_js (string s) = whole (length (codes s))
length_js (array xs) = whole (count xs)
length_js (object ms) = lookup ms "length"
length_js x = undefined

-- x.length > 0
unfoldable pub has_length : Js → Bool
unfolding length_js is_positive
has_length x = is_positive (length_js x)

-- x && x.length > 0, as a condition
unfoldable pub has_some : Js → Bool
unfolding truthy has_length
has_some x = truthy x && has_length x

unfoldable pub members : Members → List (String × Js)
members no_member = []
members (member k v ms) = (k, v) ∷ members ms

unfoldable pub indexed : ℕ → Elements → List (String × Js)
indexed i no_element = []
indexed i (element x xs) = (show i, x) ∷ indexed (i + 1) xs

-- Object.entries(x), for an x that is an object or a list; a text's characters are left out.
unfoldable pub entries : Js → List (String × Js)
unfolding members indexed
entries (object ms) = members ms
entries (array xs) = indexed 0 xs
entries x = []

-- x && Object.keys(x).length > 0, as a condition
unfoldable pub has_keys : Js → Bool
unfolding truthy entries
has_keys x = truthy x && not (nat_eq (length (entries x)) 0)
