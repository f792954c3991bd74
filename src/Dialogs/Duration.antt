-- ===== src/Dialogs/Duration.antt =====
-- parseInt(text, 10), as ECMAScript defines it: spaces and one sign are skipped, the digits up to the
-- first other character are read, and without a digit the result is NaN.
use tsymbiote.Prelude.{
  ℕ, ◌+◌, ◌-◌, ◌*◌, String, ◌≡◌, refl, Bool, true, false, ◌&&◌, ◌||◌, List, [], ◌∷◌, leb, nat_eq,
  if◌then◌else◌,
}
use Prim.Native.Char.{code}

-- `int true n` is -n.
pub data Parsed : Type 0 where
  nan : Parsed
  int : Bool → ℕ → Parsed

abbrev pub codes : String → List ℕ
codes String.[] = []
codes (String.◌∷◌ c s) = code c ∷ codes s

-- white space and line terminators, which trim() and parseInt() skip
unfoldable pub is_space : ℕ → Bool
is_space c =
    (leb 9 c && leb c 13)
    || nat_eq c 32
    || nat_eq c 160
    || nat_eq c 5760
    || (leb 8192 c && leb c 8202)
    || nat_eq c 8232
    || nat_eq c 8233
    || nat_eq c 8239
    || nat_eq c 8287
    || nat_eq c 12288
    || nat_eq c 65279

abbrev pub is_digit : ℕ → Bool
is_digit c = leb 48 c && leb c 57

skip_spaces : List ℕ → List ℕ
unfolding is_space
skip_spaces [] = []
skip_spaces (c ∷ s) = if is_space c then skip_spaces s else c ∷ s

-- the digits, behind those already read
read_digits : ℕ → List ℕ → ℕ
read_digits n [] = n
read_digits n (c ∷ s) =
    let rest = read_digits (n * 10 + (c - 48)) s in if is_digit c then rest else n

read_number : Bool → List ℕ → Parsed
unfolding read_digits
read_number negative [] = nan
read_number negative (c ∷ s) = if is_digit c then int negative (read_digits 0 (c ∷ s)) else nan

read_sign : List ℕ → Parsed
unfolding read_number
read_sign [] = nan
read_sign (c ∷ s) =
    if nat_eq c 45
    then read_number true s
    else if nat_eq c 43
    then read_number false s
    else read_number false (c ∷ s)

unfoldable pub parse_codes : List ℕ → Parsed
unfolding read_sign skip_spaces
parse_codes s = read_sign (skip_spaces s)

unfoldable pub parse_int : String → Parsed
unfolding parse_codes
parse_int text = parse_codes (codes text)

parse_tests :
    (parse_int "30" ≡ int false 30)
    × (parse_int " 12s" ≡ int false 12)
    × (parse_int "-5" ≡ int true 5)
    × (parse_int "" ≡ nan)
    × (parse_int "x1" ≡ nan)
unfolding parse_int
parse_tests = (refl, refl, refl, refl, refl)
