-- ===== src/Markup/Scanned.antt =====
-- A match of the JSON highlighter's expression and what follows it spell the text, and no match is
-- empty.
use mathlib.Core.List.{append_assoc, append-nil}
use mathlib.Core.Path.{subst}
use tsymbiote.Prelude.{
  ℕ, zero, suc, ◌<◌, ◌≡◌, refl, sym, ap, ◌∙◌, inl, inr, Bool, true, false, ◌||◌, Option, none, some,
  [], ◌∷◌, ◌++◌, arith, nat_eq, Bool-cases, length, length-append,
}
use tsymbiote.Prelude.Text.{
  Text, codes, take_while, drop_while, is_digit, is_space, is_empty, after,
}
use tsymbiote.Prelude.Text.Laws.{take_while-drop_while, after_append}
use tsymbiote.Markup.JsonText.{
  Match, before, scan_string, begins_u, is_unicode, take_colon, with_colon, whole_word,
  word_follows, or_match, scan_literal, take_sign, take_fraction, take_plus_minus, exponent,
  take_exponent, number_end, number_from, scan_number, scan,
}

unfoldable pub Spells : Text → Match → Type 0
Spells t none = Unit
Spells t (some (m, rest)) = (t ≡ m ++ rest) × (0 < length m)

before-Spells : (c : ℕ) (s : Text) (o : Match) → Spells s o → Spells (c ∷ s) (before (c ∷ []) o)
unfolding Spells
before-Spells c s none h = tt
before-Spells c s (some (m, rest)) (e, l) = (ap (λ t. c ∷ t) e, omega arith)

scan_string-Spells : (n : ℕ) (s : Text) → Spells s (scan_string n s)
unfolding scan_string
scan_string-Spells n [] = unfold Spells in tt
scan_string-Spells (suc n) (c ∷ s) = before-Spells c s (scan_string n s) (scan_string-Spells n s)
scan_string-Spells zero (c ∷ s) = elim (Bool-cases (nat_eq c b'"')) [
  | inl e ↦ rw e (unfold Spells in (refl, omega arith))
  | inr e ↦ rw e (elim (Bool-cases (nat_eq c b'\\')) [
    | inl q ↦ rw q (elim (Bool-cases (is_unicode s)) [
      | inl u ↦ rw u (before-Spells c s (scan_string 5 s) (scan_string-Spells 5 s))
      | inr u ↦ rw u (elim (Bool-cases (begins_u s)) [
        | inl v ↦ rw v (unfold Spells in tt)
        | inr v ↦ rw v (before-Spells c s (scan_string 1 s) (scan_string-Spells 1 s))
      ])
    ])
    | inr q ↦ rw q (before-Spells c s (scan_string 0 s) (scan_string-Spells 0 s))
  ])
]

while_split :
    (p : ℕ → Bool) (m rest : Text) → m ++ rest ≡ m ++ take_while p rest ++ drop_while p rest
while_split p m rest =
    ap (λ t. m ++ t) (sym (take_while-drop_while p rest))
    ∙ sym (append_assoc m (take_while p rest) (drop_while p rest))

length-append_right : (m t : Text) → 0 < length m → 0 < length (m ++ t)
length-append_right m t l = ground (arith, length-append m t)

length-append_left : (m t : Text) → 0 < length t → 0 < length (m ++ t)
length-append_left m t l = ground (arith, length-append m t)

Spells-of_eq : {s t : Text} (o : Match) → s ≡ t → Spells s o → Spells t o
Spells-of_eq o h k = subst (λ x. Spells x o) h k

take_colon-Spells :
    (m spaces s : Text) → 0 < length m → Spells (m ++ spaces ++ s) (some (take_colon m spaces s))
unfolding Spells take_colon
take_colon-Spells m spaces [] l =
    (append_assoc m spaces [] ∙ ap (λ t. m ++ t) (append-nil spaces), l)
take_colon-Spells m spaces (c ∷ s) l = elim (Bool-cases (nat_eq c b':')) [
  | inl e ↦ rw e (
    sym (append_assoc (m ++ spaces) (c ∷ []) s),
    length-append_right (m ++ spaces) (c ∷ []) (length-append_right m spaces l),
  )
  | inr e ↦ rw e (append_assoc m spaces (c ∷ s), l)
]

with_colon-Spells : (t : Text) (o : Match) → Spells t o → Spells t (with_colon o)
unfolding with_colon Spells
with_colon-Spells t none h = tt
with_colon-Spells t (some (m, rest)) (e, l) =
    let (f, k) = take_colon-Spells m (take_while is_space rest) (drop_while is_space rest) l in
    (e ∙ while_split is_space m rest ∙ f, k)

whole_word-Spells :
    (w s : Text) (o : Option Text)
    → 0 < length w
    → ((r : Text) → o ≡ some r → s ≡ w ++ r)
    → Spells s (whole_word w o)
unfolding whole_word Spells
whole_word-Spells w s none l h = tt
whole_word-Spells w s (some r) l h = elim (Bool-cases (word_follows r)) [
  | inl e ↦ rw e tt
  | inr e ↦ rw e (h r refl, l)
]

or_match-Spells : (s : Text) (o p : Match) → Spells s o → Spells s p → Spells s (or_match o p)
or_match-Spells s none p h k = k
or_match-Spells s (some r) p h k = h

scan_literal-Spells : (b : Bool) (s : Text) → Spells s (scan_literal b s)
unfolding scan_literal
scan_literal-Spells true s = unfold Spells in tt
scan_literal-Spells false s =
    or_match-Spells s _ _
      (whole_word-Spells (codes "true") s (after (codes "true") s) (omega arith)
        (after_append (codes "true") s))
      (or_match-Spells s _ _
        (whole_word-Spells (codes "false") s (after (codes "false") s) (omega arith)
          (after_append (codes "false") s))
        (whole_word-Spells (codes "null") s (after (codes "null") s) (omega arith)
          (after_append (codes "null") s)))

take_sign_spells : (s : Text) → s ≡ (take_sign s).0 ++ (take_sign s).1
unfolding take_sign
take_sign_spells [] = refl
take_sign_spells (c ∷ s) = elim (Bool-cases (nat_eq c b'-')) [
  | inl e ↦ rw e refl
  | inr e ↦ rw e refl
]

take_plus_minus_spells : (s : Text) → s ≡ (take_plus_minus s).0 ++ (take_plus_minus s).1
unfolding take_plus_minus
take_plus_minus_spells [] = refl
take_plus_minus_spells (c ∷ s) = elim (Bool-cases (nat_eq c b'+' || nat_eq c b'-')) [
  | inl e ↦ rw e refl
  | inr e ↦ rw e refl
]

take_fraction_spells : (s : Text) → s ≡ (take_fraction s).0 ++ (take_fraction s).1
unfolding take_fraction
take_fraction_spells [] = refl
take_fraction_spells (c ∷ s) = elim (Bool-cases (nat_eq c b'.')) [
  | inl e ↦ rw e (ap (λ t. c ∷ t) (sym (take_while-drop_while is_digit s)))
  | inr e ↦ rw e refl
]

exponent_spells :
    (whole : Text) (e : ℕ) (p : Text × Text)
    → whole ≡ e ∷ p.0 ++ p.1
    → whole ≡ (exponent whole e p).0 ++ (exponent whole e p).1
unfolding exponent
exponent_spells whole e (sign, s) h = elim (Bool-cases (is_empty (take_while is_digit s))) [
  | inl q ↦ rw q refl
  | inr q ↦ rw q (h ∙ ap (λ t. e ∷ t) (while_split is_digit sign s))
]

take_exponent_spells : (s : Text) → s ≡ (take_exponent s).0 ++ (take_exponent s).1
unfolding take_exponent
take_exponent_spells [] = refl
take_exponent_spells (c ∷ s) = elim (Bool-cases (nat_eq c b'e' || nat_eq c b'E')) [
  | inl e ↦
      rw e
        (exponent_spells (c ∷ s) c (take_plus_minus s) (ap (λ t. c ∷ t) (take_plus_minus_spells s)))
  | inr e ↦ rw e refl
]

number_end-Spells :
    (m : Text) (p : Text × Text) → 0 < length m → Spells (m ++ (p.0 ++ p.1)) (number_end m p)
unfolding Spells number_end
number_end-Spells m (f, s) l = (
  sym (append_assoc m f s)
      ∙ ap (λ t. (m ++ f) ++ t) (take_exponent_spells s)
      ∙ sym (append_assoc (m ++ f) (take_exponent s).0 (take_exponent s).1),
  length-append_right (m ++ f) (take_exponent s).0 (length-append_right m f l),
)

nonempty_of_some : (t : Text) → is_empty t ≡ false → 0 < length t
nonempty_of_some [] h = absurd (ground (arith, h))
nonempty_of_some (c ∷ t) h = omega arith

number_from-Spells : (p : Text × Text) → Spells (p.0 ++ p.1) (number_from p)
unfolding number_from
number_from-Spells (sign, s) = elim (Bool-cases (is_empty (take_while is_digit s))) [
  | inl q ↦ rw q (unfold Spells in tt)
  | inr q ↦ rw q (
      Spells-of_eq _
        (ap (λ t. (sign ++ take_while is_digit s) ++ t)
            (sym (take_fraction_spells (drop_while is_digit s)))
          ∙ sym (while_split is_digit sign s))
        (number_end-Spells (sign ++ take_while is_digit s) (take_fraction (drop_while is_digit s)) (
          length-append_left sign (take_while is_digit s)
            (nonempty_of_some (take_while is_digit s) q))))
]

scan_number-Spells : (s : Text) → Spells s (scan_number s)
unfolding scan_number
scan_number-Spells s = Spells-of_eq _ (sym (take_sign_spells s)) (number_from-Spells (take_sign s))

-- What the expression matches is the beginning of the text, and not empty.
pub scan-Spells : (after_word : Bool) (s : Text) → Spells s (scan after_word s)
unfolding scan
scan-Spells after_word [] = unfold Spells in tt
scan-Spells after_word (c ∷ s) = elim (Bool-cases (nat_eq c b'"')) [
  | inl e ↦
      rw e
        (with_colon-Spells (c ∷ s) _ (before-Spells c s (scan_string 0 s) (scan_string-Spells 0 s)))
  | inr e ↦ rw e (
      or_match-Spells (c ∷ s) _ _ (scan_literal-Spells after_word (c ∷ s))
        (scan_number-Spells (c ∷ s)))
]
