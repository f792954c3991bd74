-- ===== src/Markup/JsonText.antt =====
-- JsonSyntaxHighlighter of web-ui/src/components/UIComponents.tsx. `replace` with a global regular
-- expression looks for a match at each place from the left, and goes on behind a match.
use tsymbiote.Prelude.{
  ℕ, zero, suc, [], ◌∷◌, ◌++◌, Option, none, some, Bool, true, false, ◌&&◌, ◌||◌, nat_eq, get_last?,
  if◌then◌else◌, length,
}
use tsymbiote.Prelude.Text.{
  Text, codes, is_word, is_alnum, is_digit, is_space, is_empty, take_while, drop_while, after,
  includes,
}
use tsymbiote.Markup.{escape_html, span}

-- A match, and what follows it.
abbrev pub Match : Type 0
Match = Option (Text × Text)

abbrev pub before : Text → Match → Match
before t none = none
before t (some (m, rest)) = some (t ++ m, rest)

-- u[a-zA-Z0-9]{4} at the beginning
unfoldable pub is_unicode : Text → Bool
is_unicode (u ∷ a ∷ b ∷ c ∷ d ∷ s) =
    nat_eq u b'u' && is_alnum a && is_alnum b && is_alnum c && is_alnum d
is_unicode _ = false

abbrev pub begins_u : Text → Bool
begins_u [] = false
begins_u (c ∷ s) = nat_eq c b'u'

-- (\\u[a-zA-Z0-9]{4}|\\[^u]|[^\\"])*" behind the opening quote; the number counts the characters
-- that an escape has taken already
unfoldable pub scan_string : ℕ → Text → Match
unfolding is_unicode
scan_string n [] = none
scan_string (suc n) (c ∷ s) = before (c ∷ []) (scan_string n s)
scan_string zero (c ∷ s) =
    let next = before (c ∷ []) (scan_string 0 s) in
    let two = before (c ∷ []) (scan_string 1 s) in
    let six = before (c ∷ []) (scan_string 5 s) in
    if nat_eq c b'"'
    then some (c ∷ [], s)
    else if nat_eq c b'\\'
    then (if is_unicode s then six else if begins_u s then none else two)
    else next

unfoldable pub take_colon : Text → Text → Text → Text × Text
take_colon m spaces [] = (m, spaces)
take_colon m spaces (c ∷ s) =
    if nat_eq c b':' then (m ++ spaces ++ c ∷ [], s) else (m, spaces ++ c ∷ s)

-- (\s*:)?
unfoldable pub with_colon : Match → Match
unfolding take_colon
with_colon none = none
with_colon (some (m, rest)) =
    some (take_colon m (take_while is_space rest) (drop_while is_space rest))

unfoldable pub word_follows : Text → Bool
word_follows [] = false
word_follows (c ∷ s) = is_word c

unfoldable pub whole_word : Text → Option Text → Match
unfolding word_follows
whole_word w none = none
whole_word w (some rest) = if word_follows rest then none else some (w, rest)

abbrev pub or_match : Match → Match → Match
or_match none m = m
or_match (some r) m = some r

-- \b(true|false|null)\b; the flag is whether a word character stands before
unfoldable pub scan_literal : Bool → Text → Match
unfolding whole_word
scan_literal true s = none
scan_literal false s = or_match (whole_word (codes "true") (after (codes "true") s)) (
    or_match (whole_word (codes "false") (after (codes "false") s))
      (whole_word (codes "null") (after (codes "null") s)))

-- -?
unfoldable pub take_sign : Text → Text × Text
take_sign [] = ([], [])
take_sign (c ∷ s) = if nat_eq c b'-' then (c ∷ [], s) else ([], c ∷ s)

-- (?:\.\d*)?
unfoldable pub take_fraction : Text → Text × Text
take_fraction [] = ([], [])
take_fraction (c ∷ s) =
    if nat_eq c b'.' then (c ∷ take_while is_digit s, drop_while is_digit s) else ([], c ∷ s)

-- [+\-]?
unfoldable pub take_plus_minus : Text → Text × Text
take_plus_minus [] = ([], [])
take_plus_minus (c ∷ s) = if nat_eq c b'+' || nat_eq c b'-' then (c ∷ [], s) else ([], c ∷ s)

unfoldable pub exponent : Text → ℕ → Text × Text → Text × Text
exponent whole e (sign, s) =
    if is_empty (take_while is_digit s)
    then ([], whole)
    else (e ∷ sign ++ take_while is_digit s, drop_while is_digit s)

-- (?:[eE][+\-]?\d+)?
unfoldable pub take_exponent : Text → Text × Text
unfolding exponent take_plus_minus
take_exponent [] = ([], [])
take_exponent (c ∷ s) =
    if nat_eq c b'e' || nat_eq c b'E' then exponent (c ∷ s) c (take_plus_minus s) else ([], c ∷ s)

unfoldable pub number_end : Text → Text × Text → Match
unfolding take_exponent
number_end m (f, s) = some (m ++ f ++ (take_exponent s).0, (take_exponent s).1)

unfoldable pub number_from : Text × Text → Match
unfolding number_end take_fraction
number_from (sign, s) =
    if is_empty (take_while is_digit s)
    then none
    else number_end (sign ++ take_while is_digit s) (take_fraction (drop_while is_digit s))

-- -?\d+(?:\.\d*)?(?:[eE][+\-]?\d+)?
unfoldable pub scan_number : Text → Match
unfolding number_from take_sign
scan_number s = number_from (take_sign s)

-- The expression at the beginning of a text.
unfoldable pub scan : Bool → Text → Match
unfolding scan_string with_colon scan_literal scan_number
scan after_word [] = none
scan after_word (c ∷ s) =
    if nat_eq c b'"'
    then with_colon (before (c ∷ []) (scan_string 0 s))
    else or_match (scan_literal after_word (c ∷ s)) (scan_number (c ∷ s))

unfoldable pub all_but_last : Text → Text
all_but_last [] = []
all_but_last (c ∷ []) = []
all_but_last (c ∷ d ∷ s) = c ∷ all_but_last (d ∷ s)

abbrev pub ends_with : ℕ → Text → Bool
ends_with c s = elim (get_last? s) [ none ↦ false | some d ↦ nat_eq d c ]

abbrev pub begins_with : ℕ → Text → Bool
begins_with c [] = false
begins_with c (d ∷ s) = nat_eq d c

-- what the callback makes of a match
unfoldable pub paint : Text → Text
unfolding all_but_last
paint m =
    if begins_with b'"' m
    then (if ends_with b':' m
        then span (codes "cyan-400") (all_but_last m) ++ span (codes "gray-300") (codes ":")
        else span (codes "green-400") m)
    else if includes m (codes "true") || includes m (codes "false")
    then span (codes "yellow-400") m
    else if includes m (codes "null")
    then span (codes "purple-400") m
    else span (codes "blue-400") m

abbrev pub ends_word : Text → Bool
ends_word m = elim (get_last? m) [ none ↦ false | some c ↦ is_word c ]

abbrev pub append_to : Text → Option Text → Option Text
append_to t none = none
append_to t (some u) = some (t ++ u)

-- json.replace(…); none where the fuel has run out
unfoldable pub replace_all : ℕ → Bool → Text → Option Text
unfolding scan paint
replace_all fuel after_word [] = some []
replace_all zero after_word (c ∷ s) = none
replace_all (suc fuel) after_word (c ∷ s) = elim (scan after_word (c ∷ s)) [
  | none ↦ append_to (c ∷ []) (replace_all fuel (is_word c) s)
  | some (m, rest) ↦ append_to (paint m) (replace_all fuel (ends_word m) rest)
]

-- syntaxHighlight
unfoldable pub syntax_highlight : Text → Option Text
unfolding replace_all
syntax_highlight json = replace_all (length (escape_html json)) false (escape_html json)
