-- ===== src/Goroutines.antt =====
-- The parser of goroutine dumps of web-ui/src/components/CommandOutputsPanel.tsx, and the text that
-- the "Copy" button of a goroutine gives.
pub mod Printed
pub mod Dump
use tsymbiote.Prelude.{
  ℕ, List, [], ◌∷◌, ◌++◌, map, filter, Option, none, some, Bool, true, false, not, ◌&&◌, ◌||◌,
  nat_eq, get_last?, if◌then◌else◌, ◌==◌, String,
}
use tsymbiote.Prelude.Text.{
  Text, codes, is_digit, is_space, is_line_end, is_empty, all, take_while, drop_while, after,
  is_some, trim, push, split, join_with, to_lower, includes,
}

pub record ParsedGoroutine : Type 0 where
  pub id : Text
  pub state : Text
  pub duration : Option Text
  pub stack : Text

-- goroutine \d at the beginning
unfoldable pub begins_digit : Option Text → Bool
begins_digit none = false
begins_digit (some []) = false
begins_digit (some (c ∷ s)) = is_digit c

unfoldable pub begins_goroutine : Text → Bool
unfolding begins_digit
begins_goroutine s = begins_digit (after (codes "goroutine ") s)

-- stackTrace.split(/(?=^goroutine \d+)/m); the flag is whether a line begins here. There is no cut at
-- the beginning of the whole text.
unfoldable pub cut : Bool → Text → List Text
unfolding begins_goroutine
cut at_line [] = [] ∷ []
cut at_line (c ∷ s) =
    let rest = push c (cut (is_line_end c) s) in
    if at_line && begins_goroutine (c ∷ s) then [] ∷ rest else rest

unfoldable pub named_state : Text → Option Text → Option (Text × Text)
named_state id none = none
named_state id (some rest) =
    if not (is_empty (take_while (λ c. not (nat_eq c b']')) rest))
      && is_some (after (codes "]:") (drop_while (λ c. not (nat_eq c b']')) rest))
    then some (id, take_while (λ c. not (nat_eq c b']')) rest)
    else none

unfoldable pub numbered : Option Text → Option (Text × Text)
unfolding named_state
numbered none = none
numbered (some rest) =
    let state =
      named_state (take_while is_digit rest) (after (codes " [") (drop_while is_digit rest)) in
    if is_empty (take_while is_digit rest) then none else state

-- /^goroutine (\d+) \[([^\]]+)\]:/
unfoldable pub header_line : Text → Option (Text × Text)
unfolding numbered
header_line part = numbered (after (codes "goroutine ") part)

unfoldable pub last_char : Option ℕ → Option Text
last_char none = none
last_char (some c) = if is_line_end c then none else some (c ∷ [])

-- \s*(.+)$: where all is white space, the last character of it is given back
unfoldable pub after_spaces : Text → Option Text
unfolding last_char
after_spaces s =
    if is_empty (drop_while is_space s)
    then last_char (get_last? s)
    else if all (λ c. not (is_line_end c)) (drop_while is_space s)
    then some (drop_while is_space s)
    else none

unfoldable pub grow : ℕ → Option (Text × Text) → Option (Text × Text)
grow c none = none
grow c (some (state, duration)) = some (c ∷ state, duration)

unfoldable pub at_comma : Option Text → Option (Text × Text) → Option (Text × Text)
at_comma none later = later
at_comma (some duration) later = some ([], duration)

-- .*?,\s*(.+)$
unfoldable pub to_comma : Text → Option (Text × Text)
unfolding grow at_comma
to_comma [] = none
to_comma (c ∷ s) =
    let later = grow c (to_comma s) in
    if nat_eq c b',' then at_comma (after_spaces s) later else if is_line_end c then none else later

-- /^(.+?),\s*(.+)$/
unfoldable pub split_duration : Text → Option (Text × Text)
unfolding to_comma
split_duration [] = none
split_duration (c ∷ s) = if is_line_end c then none else grow c (to_comma s)

unfoldable pub state_of : Text → Option (Text × Text) → Text
state_of info none = info
state_of info (some (state, duration)) = state

unfoldable pub duration_of : Option (Text × Text) → Option Text
duration_of none = none
duration_of (some (state, duration)) = some duration

abbrev pub tail : List Text → List Text
tail [] = []
tail (l ∷ ls) = ls

unfoldable pub parsed_part : Text → Option (Text × Text) → ParsedGoroutine
unfolding state_of duration_of
parsed_part part none = record {
  id = codes "?";
  state = codes "unknown";
  duration = none;
  stack = trim part;
}
parsed_part part (some (id, info)) = record {
  id = id;
  state = state_of info (split_duration info);
  duration = duration_of (split_duration info);
  stack = trim (join_with b'\n' (tail (split b'\n' part)));
}

unfoldable pub parse_part : Text → ParsedGoroutine
unfolding parsed_part
parse_part part = parsed_part part (header_line part)

-- parseGoroutines
unfoldable pub parse_goroutines : Text → List ParsedGoroutine
unfolding parse_part
parse_goroutines text =
    map parse_part (filter (λ part. not (is_empty (trim part))) (cut false text))

-- formatGoroutineText
unfoldable pub state_text : Text → Option Text → Text
state_text state none = state
state_text state (some []) = state
state_text state (some (c ∷ d)) = state ++ (codes ", " ++ (c ∷ d))

unfoldable pub format_goroutine_text : ParsedGoroutine → Text
unfolding state_text
format_goroutine_text g =
    codes "goroutine "
    ++ (g.id
        ++ (codes " [" ++ (state_text g.state g.duration ++ (codes "]:" ++ (b'\n' ∷ g.stack)))))

abbrev is_end : Option Text → Bool
is_end none = false
is_end (some s) = is_empty s

-- getStateColor
unfoldable pub get_state_color : Text → String
get_state_color state =
    let lower = to_lower state in
    let has = λ (word : String). includes lower (codes word) in
    if is_end (after (codes "running") lower)
    then "bg-green-600"
    else if has "wait" || has "receive" || has "select"
    then "bg-blue-600"
    else if has "sleep"
    then "bg-yellow-600"
    else if has "syscall"
    then "bg-purple-600"
    else if has "chan"
    then "bg-cyan-600"
    else if has "sync"
    then "bg-orange-600"
    else "bg-gray-600"
