-- ===== src/Markup/GoTrace.antt =====
-- GoStackTraceSyntaxHighlighter of web-ui/src/components/UIComponents.tsx. Each regular expression
-- of the source has one way to match a line, since what follows a repetition is no character of it,
-- so that a match is found by taking the longest beginnings.
use tsymbiote.Prelude.{
  ℕ, [], ◌∷◌, ◌++◌, map, Option, none, some, Bool, true, false, not, ◌&&◌, ◌||◌, leb, nat_eq,
  get_last?, if◌then◌else◌,
}
use tsymbiote.Prelude.Text.{
  Text, codes, is_word, is_digit, is_space, is_line_end, is_empty, all, take_while, drop_while,
  after, split, join_with, split_last,
}
use tsymbiote.Markup.{escape_html, span}

-- [a-zA-Z0-9_./]
unfoldable pub is_path : ℕ → Bool
is_path c = is_word c || nat_eq c b'.' || nat_eq c b'/'

unfoldable pub named : Text → Option (Text × Text) → Option (Text × Text × Text)
named rest none = none
named rest (some (a, b)) =
    if not (is_empty a) && not (is_empty b) && all is_word b then some (a, b, rest) else none

-- ([a-zA-Z0-9_./]+)\.([a-zA-Z0-9_]+) up to a character that is in neither class, and what follows
unfoldable pub qualified : Text → Option (Text × Text × Text)
unfolding named
qualified line = named (drop_while is_path line) (split_last b'.' (take_while is_path line))

-- (\(.*\))$, after the opening parenthesis
abbrev pub closes : Text → Bool
closes rest =
    all (λ c. not (is_line_end c)) rest
    && (elim (get_last? rest) [ none ↦ false | some c ↦ nat_eq c b')' ])

unfoldable pub paint_call : Text → Option (Text × Text × Text) → Option Text
paint_call line none = none
paint_call line (some (a, b, [])) = none
paint_call line (some (a, b, c ∷ rest)) =
    if nat_eq c b'('
    then some (
        if closes rest
        then span (codes "gray-400") (a ++ codes ".")
          ++ span (codes "yellow-400") b
          ++ span (codes "gray-500") (c ∷ rest)
        else line)
    else none

-- The line with a function call, marked; none if the line is no call.
unfoldable pub call_line : Text → Option Text
unfolding qualified paint_call
call_line line = paint_call line (qualified line)

-- (\s+\+0x[a-fA-F0-9]+)?$
is_hex : ℕ → Bool
is_hex c = is_digit c || (leb b'a' c && leb c b'f') || (leb b'A' c && leb c b'F')

hex_number : Option Text → Bool
unfolding is_hex
hex_number none = false
hex_number (some d) = not (is_empty d) && all is_hex d

unfoldable pub is_offset : Text → Bool
unfolding hex_number
is_offset [] = true
is_offset (c ∷ t) = is_space c && hex_number (after (codes "+0x") (drop_while is_space (c ∷ t)))

unfoldable pub paint_file : Text → Text → Text → Text
unfolding is_offset
paint_file line file [] = line
paint_file line file (c ∷ rest) =
    if nat_eq c b':'
      && not (is_empty file)
      && not (is_empty (take_while is_digit rest))
      && is_offset (drop_while is_digit rest)
    then b'\t' ∷ span (codes "cyan-400") file
      ++ codes ":"
      ++ span (codes "blue-400") (take_while is_digit rest)
      ++ span (codes "gray-500") (drop_while is_digit rest)
    else line

-- [^\s:]
abbrev pub in_file_name : ℕ → Bool
in_file_name c = not (is_space c || nat_eq c b':')

-- A line that begins with a tab; `rest` is what follows it.
unfoldable pub file_line : Text → Text → Text
unfolding paint_file
file_line line rest = paint_file line (take_while in_file_name rest) (drop_while in_file_name rest)

-- ( in goroutine \d+)?$
in_goroutine : Option Text → Bool
in_goroutine none = false
in_goroutine (some d) = not (is_empty d) && all is_digit d

unfoldable pub is_goroutine : Text → Bool
unfolding in_goroutine
is_goroutine [] = true
is_goroutine (c ∷ t) = in_goroutine (after (codes " in goroutine ") (c ∷ t))

unfoldable pub paint_created : Text → Option (Text × Text × Text) → Text
unfolding is_goroutine
paint_created line none = line
paint_created line (some (a, b, rest)) =
    if is_goroutine rest
    then span (codes "purple-400") (codes "created by ")
      ++ span (codes "gray-400") (a ++ codes ".")
      ++ span (codes "yellow-400") b
      ++ span (codes "gray-500") rest
    else line

-- A line that begins with "created by "; `rest` is what follows.
unfoldable pub created_line : Text → Text → Text
unfolding qualified paint_created
created_line line rest = paint_created line (qualified rest)

unfoldable pub plain_line : Text → Option Text → Text
unfolding created_line
plain_line line none = span (codes "gray-300") line
plain_line line (some rest) = created_line line rest

unfoldable pub other_line : Text → Text
unfolding file_line plain_line
other_line [] = plain_line [] (after (codes "created by ") [])
other_line (c ∷ rest) =
    if nat_eq c b'\t'
    then file_line (c ∷ rest) rest
    else plain_line (c ∷ rest) (after (codes "created by ") (c ∷ rest))

unfoldable pub or_other : Text → Option Text → Text
unfolding other_line
or_other line none = other_line line
or_other line (some out) = out

-- what the `map` does to one line
unfoldable pub highlight_line : Text → Text
unfolding or_other call_line
highlight_line line = or_other line (call_line line)

-- highlightStackTrace
unfoldable pub highlight_stack_trace : Text → Text
unfolding highlight_line
highlight_stack_trace text = join_with b'\n' (map highlight_line (split b'\n' (escape_html text)))
