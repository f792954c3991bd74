-- ===== src/Js/Declared.antt =====
-- What the declared type of a field says of a value that is there.
use tsymbiote.Prelude.{
  ℕ, Bool-cases, inl, inr, String, ◌≡◌, refl, ◌∙◌, sym, ap, Bool, true, false, false≢true, arith,
}
use tsymbiote.Js.{
  Js, undefined, null, bool, number, string, array, object, truthy, field, is_nullish, whole, or_js,
}
use tsymbiote.Js.Shapes.{is_plain, is_number, is_string, optional, or_null, object_fits, field-fits}

truthy-optional : (p : Js → Bool) (x : Js) → optional p x ≡ true → truthy x ≡ true → p x ≡ true
unfolding optional truthy
truthy-optional p undefined h k = absurd (false≢true k)
truthy-optional p null h k = absurd (false≢true k)
truthy-optional p (bool b) h k = h
truthy-optional p (number n) h k = h
truthy-optional p (string s) h k = h
truthy-optional p (array xs) h k = h
truthy-optional p (object ms) h k = h

truthy-or_null : (p : Js → Bool) (x : Js) → or_null p x ≡ true → truthy x ≡ true → p x ≡ true
unfolding or_null truthy
truthy-or_null p undefined h k = absurd (false≢true k)
truthy-or_null p null h k = absurd (false≢true k)
truthy-or_null p (bool b) h k = h
truthy-or_null p (number n) h k = h
truthy-or_null p (string s) h k = h
truthy-or_null p (array xs) h k = h
truthy-or_null p (object ms) h k = h

pub truthy-not_nullish : (x : Js) → truthy x ≡ true → is_nullish x ≡ false
unfolding truthy
truthy-not_nullish undefined h = absurd (false≢true h)
truthy-not_nullish null h = absurd (false≢true h)
truthy-not_nullish (bool b) h = refl
truthy-not_nullish (number n) h = refl
truthy-not_nullish (string s) h = refl
truthy-not_nullish (array xs) h = refl
truthy-not_nullish (object ms) h = refl

pub object_fits-not_nullish :
    (f : String → Js → Bool) (x : Js) → object_fits f x ≡ true → is_nullish x ≡ false
unfolding object_fits
object_fits-not_nullish f undefined h = absurd (false≢true h)
object_fits-not_nullish f null h = absurd (false≢true h)
object_fits-not_nullish f (bool b) h = refl
object_fits-not_nullish f (number n) h = refl
object_fits-not_nullish f (string s) h = refl
object_fits-not_nullish f (array xs) h = refl
object_fits-not_nullish f (object ms) h = refl

pub plain_of_string : (x : Js) → is_string x ≡ true → is_plain x ≡ true
unfolding is_plain
plain_of_string undefined h = refl
plain_of_string null h = refl
plain_of_string (bool b) h = refl
plain_of_string (number n) h = refl
plain_of_string (string s) h = refl
plain_of_string (array xs) h = absurd (false≢true h)
plain_of_string (object ms) h = absurd (false≢true h)

plain_of_number : (x : Js) → is_number x ≡ true → is_plain x ≡ true
unfolding is_plain
plain_of_number undefined h = refl
plain_of_number null h = refl
plain_of_number (bool b) h = refl
plain_of_number (number n) h = refl
plain_of_number (string s) h = refl
plain_of_number (array xs) h = absurd (false≢true h)
plain_of_number (object ms) h = absurd (false≢true h)

plain_of_optional :
    (p : Js → Bool) (x : Js)
    → ((y : Js) → p y ≡ true → is_plain y ≡ true)
    → optional p x ≡ true
    → is_plain x ≡ true
unfolding optional is_plain
plain_of_optional p undefined g h = refl
plain_of_optional p null g h = refl
plain_of_optional p (bool b) g h = refl
plain_of_optional p (number n) g h = refl
plain_of_optional p (string s) g h = refl
plain_of_optional p (array xs) g h = g (array xs) h
plain_of_optional p (object ms) g h = g (object ms) h

pub there : (p : Js → Bool) (x : Js) → p x ≡ true → optional p x ≡ true
unfolding optional
there p x h = ground arith

-- The fields of an object that may be missing itself
field-fits_where :
    (f : String → Js → Bool) (x : Js) (k : String)
    → optional (object_fits f) x ≡ true
    → f k undefined ≡ true
    → f k (field x k) ≡ true
unfolding optional field
field-fits_where f undefined k h o = o
field-fits_where f null k h o = o
field-fits_where f (bool b) k h o = o
field-fits_where f (number n) k h o = o
field-fits_where f (string s) k h o = o
field-fits_where f (array xs) k h o = o
field-fits_where f (object ms) k h o = field-fits f (object ms) k h o

pub text-plain : (s : String) → is_plain (string s) ≡ true
unfolding is_plain
text-plain s = refl

pub whole-plain : (n : ℕ) → is_plain (whole n) ≡ true
unfolding is_plain
whole-plain n = refl

pub or_text-plain : (x : Js) (s : String) → is_plain x ≡ true → is_plain (or_js x (string s)) ≡ true
unfolding is_plain
or_text-plain x s h = elim (Bool-cases (truthy x)) [ inl p ↦ rw p h | inr p ↦ rw p refl ]

module _ (f : String → Js → Bool) (d : Js) (typed : optional (object_fits f) d ≡ true) where
  -- A field of an optional type is there, or undefined.
  pub field-optional :
      (k : String) (p : Js → Bool) → f k ≡ optional p → optional p (field d k) ≡ true
  unfolding optional
  field-optional k p e =
      ap (λ q. q (field d k)) (sym e) ∙ field-fits_where f d k typed (ap (λ q. q undefined) e)

  pub text_field : (k : String) → f k ≡ optional is_string → is_plain (field d k) ≡ true
  text_field k e = plain_of_optional is_string _ plain_of_string (field-optional k is_string e)

  pub number_field : (k : String) → f k ≡ optional is_number → is_plain (field d k) ≡ true
  number_field k e = plain_of_optional is_number _ plain_of_number (field-optional k is_number e)

  pub declared :
      (k : String) (p : Js → Bool)
      → f k ≡ optional p
      → truthy (field d k) ≡ true
      → p (field d k) ≡ true
  declared k p e h = truthy-optional p _ (field-optional k p e) h

  pub declared_or_null :
      (k : String) (p : Js → Bool)
      → f k ≡ optional (or_null p)
      → truthy (field d k) ≡ true
      → p (field d k) ≡ true
  declared_or_null k p e h = truthy-or_null p _ (declared k (or_null p) e h) h
