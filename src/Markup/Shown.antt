-- ===== src/Markup/Shown.antt =====
-- What a browser shows of HTML without other tags and entities than those that the highlighters
-- write, and that escaping is undone by it.
use mathlib.Core.List.{append_assoc}
use tsymbiote.Prelude.{
  ℕ, zero, suc, ◌≡◌, refl, sym, ap, ◌∙◌, Bool, true, false, [], ◌∷◌, ◌++◌, arith, nat_eq,
  if◌then◌else◌, All-append,
}
use tsymbiote.Prelude.Text.{Text, codes, starts_with}
use tsymbiote.Prelude.Text.Laws.{Lacks}
use tsymbiote.Markup.{replace_char, escape_html}

-- The text outside the tags; a tag is what stands from < to the next >.
unfoldable pub visible : Bool → Text → Text
visible inside [] = []
visible true (c ∷ s) = visible (if nat_eq c b'>' then false else true) s
visible false (c ∷ s) =
    let out = visible false s in
    let skip = visible true s in if nat_eq c b'<' then skip else c ∷ out

-- The text with its three entities read; the number counts the characters still to be passed over.
unfoldable pub decode : ℕ → Text → Text
unfolding starts_with
decode n [] = []
decode (suc n) (c ∷ s) = decode n s
decode zero (c ∷ s) =
    let next = decode 0 s in
    let amp = decode 4 s in
    let angle = decode 3 s in
    if nat_eq c b'&'
    then (if starts_with (codes "amp;") s
        then b'&' ∷ amp
        else if starts_with (codes "lt;") s
        then b'<' ∷ angle
        else if starts_with (codes "gt;") s
        then b'>' ∷ angle
        else c ∷ next)
    else c ∷ next

unfoldable pub shown : Text → Text
unfolding visible decode
shown html = decode 0 (visible false html)

-- All three replacements at once.
escape_char : ℕ → Text
escape_char c =
    if nat_eq c b'&'
    then codes "&amp;"
    else if nat_eq c b'<'
    then codes "&lt;"
    else if nat_eq c b'>'
    then codes "&gt;"
    else c ∷ []

unfoldable pub escape_at_once : Text → Text
unfolding escape_char
escape_at_once [] = []
escape_at_once (c ∷ s) = escape_char c ++ escape_at_once s

replace_char-append :
    (c : ℕ) (t x y : Text) → replace_char c t (x ++ y) ≡ replace_char c t x ++ replace_char c t y
unfolding replace_char
replace_char-append c t [] y = refl
replace_char-append c t (d ∷ x) y =
    ap (λ r. (if nat_eq d c then t else d ∷ []) ++ r) (replace_char-append c t x y)
    ∙ sym
        (append_assoc (if nat_eq d c then t else d ∷ []) (replace_char c t x) (replace_char c t y))

escape_html-append : (x y : Text) → escape_html (x ++ y) ≡ escape_html x ++ escape_html y
unfolding escape_html
escape_html-append x y = simp replace_char-append

escape_html_char : (c : ℕ) → escape_html (c ∷ []) ≡ escape_char c
unfolding escape_html escape_char
escape_html_char c = ground arith

-- One replacement after the other, in the source's order, replaces each character once.
pub escape_html-escape_at_once : (s : Text) → escape_html s ≡ escape_at_once s
unfolding escape_at_once
escape_html-escape_at_once [] = unfold escape_html in refl
escape_html-escape_at_once (c ∷ s) =
    escape_html-append (c ∷ []) s ∙ cc (escape_html_char c, escape_html-escape_at_once s)

decode-escape_char : (c : ℕ) (s : Text) → decode 0 (escape_char c ++ s) ≡ c ∷ decode 0 s
unfolding decode escape_char
decode-escape_char c s = ground arith

decode-escape_at_once : (s : Text) → decode 0 (escape_at_once s) ≡ s
unfolding escape_at_once
decode-escape_at_once [] = unfold decode in refl
decode-escape_at_once (c ∷ s) =
    decode-escape_char c (escape_at_once s) ∙ ap (λ t. c ∷ t) (decode-escape_at_once s)

-- Reading the entities undoes the escaping.
pub decode-escape_html : (s : Text) → decode 0 (escape_html s) ≡ s
decode-escape_html s = ap (decode 0) (escape_html-escape_at_once s) ∙ decode-escape_at_once s

escape_char-Lacks : (c : ℕ) → Lacks b'<' (escape_char c)
unfolding escape_char
escape_char-Lacks c = ground arith

escape_at_once-Lacks : (s : Text) → Lacks b'<' (escape_at_once s)
unfolding escape_at_once
escape_at_once-Lacks [] = tt
escape_at_once-Lacks (c ∷ s) =
    All-append _ (escape_char c) (escape_at_once s) (escape_char-Lacks c) (escape_at_once-Lacks s)

-- Escaped text begins no tag.
pub escape_html-Lacks : (s : Text) → Lacks b'<' (escape_html s)
escape_html-Lacks s = rw (escape_html-escape_at_once s) (escape_at_once-Lacks s)

-- Text without < is shown as it is.
pub visible-append : (x y : Text) → Lacks b'<' x → visible false (x ++ y) ≡ x ++ visible false y
unfolding visible
visible-append [] y h = refl
visible-append (c ∷ x) y (ne, h) = ground (arith, ne, visible-append x y h)
