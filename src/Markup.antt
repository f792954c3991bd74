-- ===== src/Markup.antt =====
-- The two highlighters of web-ui/src/components/UIComponents.tsx, which make HTML out of a text and
-- hand it to dangerouslySetInnerHTML. A text is the list of its code points.
pub mod Shown
pub mod Clear
pub mod Scanned
pub mod GoTrace
pub mod JsonText
pub mod Faithful
pub mod LinesShown
use tsymbiote.Prelude.{ℕ, List, [], ◌∷◌, ◌++◌, String, nat_eq, if◌then◌else◌}
use tsymbiote.Prelude.Text.{Text, codes}

-- s.replace(/c/g, t), for one character
unfoldable pub replace_char : ℕ → Text → Text → Text
replace_char c t [] = []
replace_char c t (d ∷ s) = (if nat_eq d c then t else d ∷ []) ++ replace_char c t s

-- .replace(/&/g, '&amp;').replace(/</g, '&lt;').replace(/>/g, '&gt;')
unfoldable pub escape_html : Text → Text
unfolding replace_char
escape_html s =
    replace_char b'>' (codes "&gt;")
      (replace_char b'<' (codes "&lt;") (replace_char b'&' (codes "&amp;") s))

-- <span class="text-…">…</span>
abbrev pub span : Text → Text → Text
span cls t = codes "<span class=\"text-" ++ (cls ++ (codes "\">" ++ (t ++ codes "</span>")))
