-- ===== src/Tests/Dumps.antt =====
-- A dump of two goroutines.
use tsymbiote.Prelude.{◌≡◌, refl, [], ◌∷◌, some, none, All}
use tsymbiote.Prelude.Text.{codes, after, take_while, drop_while, is_space, is_line_end, all, trim}
use tsymbiote.Goroutines.{
  ParsedGoroutine, begins_goroutine, header_line, parse_part, parse_goroutines,
}
use tsymbiote.Goroutines.Printed.{IsPrinted}
use tsymbiote.Goroutines.Dump.{IsDumped, no_start, print_dump, parse_goroutines-print_dump}

abbrev running : ParsedGoroutine
running = record {
  id = codes "1";
  state = codes "running";
  duration = none;
  stack = codes "main.main()\n\t/x.go:3";
}

abbrev waiting : ParsedGoroutine
waiting = record {
  id = codes "42";
  state = codes "IO wait";
  duration = some (codes "3 minutes");
  stack = codes "f(0x1)";
}

unreadable_header : parse_part (codes "goroutine 7 []:\n f()") ≡ record {
  id = codes "?";
  state = codes "unknown";
  duration = none;
  stack = codes "goroutine 7 []:\n f()";
}
unfolding parse_part header_line after take_while drop_while trim is_space
unreadable_header = refl

running-IsPrinted : IsPrinted running
unfolding all is_line_end trim drop_while is_space
running-IsPrinted = record {
  some_id = refl;
  id = refl;
  some_state = refl;
  state = refl;
  duration = tt;
  stack = refl;
}

waiting-IsPrinted : IsPrinted waiting
unfolding all is_line_end trim drop_while is_space
waiting-IsPrinted = record {
  some_id = refl;
  id = refl;
  some_state = refl;
  state = refl;
  duration = (refl, refl, refl);
  stack = refl;
}

both-IsDumped : All IsDumped (running ∷ waiting ∷ [])
unfolding no_start begins_goroutine after is_line_end
both-IsDumped = (
  record { printed = running-IsPrinted; one = refl },
  (record { printed = waiting-IsPrinted; one = refl }, tt),
)

parse_goroutines-print_dump_example :
    parse_goroutines (print_dump (running ∷ waiting ∷ [])) ≡ running ∷ waiting ∷ []
parse_goroutines-print_dump_example =
    parse_goroutines-print_dump (running ∷ waiting ∷ []) both-IsDumped
