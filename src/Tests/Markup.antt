-- ===== src/Tests/Markup.antt =====
-- The highlighters on short texts.
use tsymbiote.Prelude.{◌≡◌, refl, some}
use tsymbiote.Prelude.Text.{
  Text, codes, after, take_while, drop_while, is_space, is_word, includes, all, is_line_end,
  split_last,
}
use tsymbiote.Markup.{escape_html}
use tsymbiote.Markup.Shown.{shown, escape_at_once, escape_html-escape_at_once}
use tsymbiote.Markup.JsonText.{syntax_highlight}
use tsymbiote.Markup.Faithful.{syntax_highlight_shown}
use tsymbiote.Markup.GoTrace.{is_path, highlight_line, highlight_stack_trace}
use tsymbiote.Markup.LinesShown.{highlight_stack_trace_shown}

abbrev json : Text
json = codes "{\"a<b\": -1.5e3}"

abbrev html_of_json : Text
html_of_json =
    codes
      "{<span class=\"text-cyan-400\">\"a&lt;b\"</span><span class=\"text-gray-300\">:</span> <span class=\"text-blue-400\">-1.5e3</span>}"

json_is_marked : syntax_highlight json ≡ some html_of_json
unfolding syntax_highlight escape_html after take_while drop_while is_space is_word includes
json_is_marked = refl

call_is_marked :
    highlight_line (codes "runtime.gopark(0xc)")
    ≡ codes
        "<span class=\"text-gray-400\">runtime.</span><span class=\"text-yellow-400\">gopark</span><span class=\"text-gray-500\">(0xc)</span>"
unfolding highlight_line split_last take_while drop_while is_path is_word all is_line_end
call_is_marked = refl

file_is_marked :
    highlight_line (codes "\t/go/proc.go:398 +0xce")
    ≡ codes
        "\t<span class=\"text-cyan-400\">/go/proc.go</span>:<span class=\"text-blue-400\">398</span><span class=\"text-gray-500\"> +0xce</span>"
unfolding highlight_line split_last take_while drop_while is_path is_word all is_space after
file_is_marked = refl

syntax_highlight_shown_example :
    (html : Text) × (syntax_highlight json ≡ some html) × (shown html ≡ json)
syntax_highlight_shown_example = syntax_highlight_shown json

highlight_stack_trace_shown_example :
    shown (highlight_stack_trace (codes "main.f(a<b)\n\t/x.go:3")) ≡ codes "main.f(a<b)\n\t/x.go:3"
highlight_stack_trace_shown_example = highlight_stack_trace_shown (codes "main.f(a<b)\n\t/x.go:3")

escape_html-escape_at_once_example : escape_html (codes "&lt;<") ≡ escape_at_once (codes "&lt;<")
escape_html-escape_at_once_example = escape_html-escape_at_once (codes "&lt;<")
