-- ===== src/Goroutines/Printed.antt =====
-- A goroutine that has been copied as text is read back as it was.
use mathlib.Core.List.{append_assoc}
use tsymbiote.Prelude.{
  ℕ, ◌≡◌, refl, ap, ◌∙◌, [], ◌∷◌, ◌++◌, Option, none, some, Bool, true, false, not, ◌&&◌, nat_eq,
  arith,
}
use tsymbiote.Prelude.Text.{
  Text, codes, is_digit, is_space, is_line_end, is_empty, all, drop_while, after, trim, split,
  join_with,
}
use tsymbiote.Prelude.Text.Laws.{join_with-split}
use tsymbiote.Prelude.Text.Cuts.{
  all-append, all_of_all, take_while_stop, drop_while_stop, split_first,
}
use tsymbiote.Goroutines.{
  ParsedGoroutine, named_state, numbered, header_line, after_spaces, grow, at_comma, to_comma,
  split_duration, state_of, duration_of, tail, parsed_part, parse_part, state_text,
  format_goroutine_text,
}

abbrev pub in_state : ℕ → Bool
in_state c = not (nat_eq c b']') && not (is_line_end c)

abbrev pub in_name : ℕ → Bool
in_name c = in_state c && not (nat_eq c b',')

-- A duration begins with no white space.
abbrev pub IsDuration : Option Text → Type 0
IsDuration none = Unit
IsDuration (some d) = (is_empty d ≡ false) × (drop_while is_space d ≡ d) × (all in_state d ≡ true)

-- What a dump can have in a header, and a trimmed stack.
pub record IsPrinted (g : ParsedGoroutine) : Type 0 where
  pub some_id : is_empty g.id ≡ false
  pub id : all is_digit g.id ≡ true
  pub some_state : is_empty g.state ≡ false
  pub state : all in_name g.state ≡ true
  pub duration : IsDuration g.duration
  pub stack : trim g.stack ≡ g.stack

header_line-read :
    (id info rest : Text)
    → is_empty id ≡ false
    → all is_digit id ≡ true
    → is_empty info ≡ false
    → all (λ c. not (nat_eq c b']')) info ≡ true
    → header_line (codes "goroutine " ++ (id ++ (codes " [" ++ (info ++ (codes "]:" ++ rest)))))
      ≡ some (id, info)
unfolding header_line numbered named_state after
header_line-read id info rest i d n s =
    rw (take_while_stop is_digit id b' ' (codes "[" ++ (info ++ (codes "]:" ++ rest))) d refl) (
      rw (drop_while_stop is_digit id b' ' (codes "[" ++ (info ++ (codes "]:" ++ rest))) d refl) (
        rw (take_while_stop (λ c. not (nat_eq c b']')) info b']' (codes ":" ++ rest) s refl) (
          rw (drop_while_stop (λ c. not (nat_eq c b']')) info b']' (codes ":" ++ rest) s refl)
            (rw i (rw n refl)))))

to_comma-none : (s : Text) → all in_name s ≡ true → to_comma s ≡ none
unfolding to_comma all grow
to_comma-none [] h = refl
to_comma-none (c ∷ s) h = ground (arith, h, to_comma-none s)

to_comma_read :
    (s d : Text)
    → all in_name s ≡ true
    → after_spaces (b' ' ∷ d) ≡ some d
    → to_comma (s ++ b',' ∷ b' ' ∷ d) ≡ some (s, d)
unfolding to_comma all grow at_comma
to_comma_read [] d h k = rw k refl
to_comma_read (c ∷ s) d h k = rw (to_comma_read s d (ground (arith, h)) k) (ground (arith, h))

split_none : (s : Text) → all in_name s ≡ true → split_duration s ≡ none
unfolding split_duration all grow
split_none [] h = refl
split_none (c ∷ s) h = ground (arith, h, to_comma-none s)

split_read :
    (s d : Text)
    → is_empty s ≡ false
    → all in_name s ≡ true
    → after_spaces (b' ' ∷ d) ≡ some d
    → split_duration (s ++ b',' ∷ b' ' ∷ d) ≡ some (s, d)
unfolding split_duration all grow
split_read [] d n h k = absurd (ground (arith, n))
split_read (c ∷ s) d n h k = rw (to_comma_read s d (ground (arith, h)) k) (ground (arith, h))

after_spaces_read :
    (d : Text)
    → is_empty d ≡ false
    → drop_while is_space d ≡ d
    → all in_state d ≡ true
    → after_spaces (b' ' ∷ d) ≡ some d
unfolding after_spaces drop_while is_space
after_spaces_read d n e h =
    rw e (
      rw n
        (rw (all_of_all in_state (λ c. not (is_line_end c)) d (λ c k. ground (arith, k)) h) refl))

stack_read :
    (top stack : Text)
    → all (λ c. not (nat_eq c b'\n')) top ≡ true
    → join_with b'\n' (tail (split b'\n' (top ++ b'\n' ∷ stack))) ≡ stack
stack_read top stack h =
    ap (λ ls. join_with b'\n' (tail ls)) (split_first b'\n' top stack h)
    ∙ join_with-split b'\n' stack

-- the header without the line's end
abbrev pub top_line : Text → Text → Text
top_line id info = codes "goroutine " ++ (id ++ (codes " [" ++ (info ++ codes "]:")))

pub no_line_end_in_top :
    (id info : Text)
    → all is_digit id ≡ true
    → all in_state info ≡ true
    → all (λ c. not (is_line_end c)) (top_line id info) ≡ true
unfolding all is_line_end
no_line_end_in_top id info d s =
    rw (all-append (λ c. not (is_line_end c)) id (codes " [" ++ (info ++ codes "]:"))) (
      rw (all-append (λ c. not (is_line_end c)) info (codes "]:")) (
        rw (all_of_all is_digit (λ c. not (is_line_end c)) id (λ c k. ground (arith, k)) d) (
          rw (all_of_all in_state (λ c. not (is_line_end c)) info (λ c k. ground (arith, k)) s)
            refl)))

no_newline_in_top :
    (id info : Text)
    → all is_digit id ≡ true
    → all in_state info ≡ true
    → all (λ c. not (nat_eq c b'\n')) (top_line id info) ≡ true
unfolding is_line_end
no_newline_in_top id info d s =
    all_of_all (λ c. not (is_line_end c)) (λ c. not (nat_eq c b'\n')) (top_line id info)
      (λ c k. ground (arith, k)) (no_line_end_in_top id info d s)

pub top_line_append :
    (id info rest : Text)
    → codes "goroutine " ++ (id ++ (codes " [" ++ (info ++ (codes "]:" ++ rest))))
      ≡ top_line id info ++ rest
top_line_append id info rest = simp append_assoc

parse_header :
    (part id info stack : Text)
    → header_line part ≡ some (id, info)
    → join_with b'\n' (tail (split b'\n' part)) ≡ stack
    → parse_part part ≡ record {
      id = id;
      state = state_of info (split_duration info);
      duration = duration_of (split_duration info);
      stack = trim stack;
    }
unfolding parse_part parsed_part
parse_header part id info stack h k = rw (h, k) refl

pub parse_read :
    (id info stack : Text)
    → is_empty id ≡ false
    → all is_digit id ≡ true
    → is_empty info ≡ false
    → all in_state info ≡ true
    → parse_part
        (codes "goroutine " ++ (id ++ (codes " [" ++ (info ++ (codes "]:" ++ b'\n' ∷ stack)))))
      ≡ record {
        id = id;
        state = state_of info (split_duration info);
        duration = duration_of (split_duration info);
        stack = trim stack;
      }
parse_read id info stack i d n s =
    parse_header _ id info stack
      (header_line-read id info (b'\n' ∷ stack) i d n
        (all_of_all in_state (λ c. not (nat_eq c b']')) info (λ c k. ground (arith, k)) s))
      (ap (λ t. join_with b'\n' (tail (split b'\n' t))) (top_line_append id info (b'\n' ∷ stack))
        ∙ stack_read (top_line id info) stack (no_newline_in_top id info d s))

in_state_of_name : (s : Text) → all in_name s ≡ true → all in_state s ≡ true
in_state_of_name s h = all_of_all in_name in_state s (λ c k. ground (arith, k)) h

-- The state and the duration of a header are read back from the text between its brackets.
pub record IsReadBack (state : Text) (duration : Option Text) : Type 0 where
  pub some_text : is_empty (state_text state duration) ≡ false
  pub inside : all in_state (state_text state duration) ≡ true
  pub state_back :
      state_of (state_text state duration) (split_duration (state_text state duration)) ≡ state
  pub duration_back : duration_of (split_duration (state_text state duration)) ≡ duration

is_empty-append : (x y : Text) → is_empty x ≡ false → is_empty (x ++ y) ≡ false
is_empty-append [] y h = absurd (ground (arith, h))
is_empty-append (c ∷ x) y h = refl

separator : (d : Text) → all in_state d ≡ true → all in_state (codes ", " ++ d) ≡ true
unfolding all is_line_end
separator d k = k

pub state_text-IsReadBack :
    (state : Text) (o : Option Text)
    → is_empty state ≡ false
    → all in_name state ≡ true
    → IsDuration o
    → IsReadBack state o
unfolding state_text state_of duration_of
state_text-IsReadBack state none n h k = record {
  some_text = n;
  inside = in_state_of_name state h;
  state_back = rw (split_none state h) refl;
  duration_back = rw (split_none state h) refl;
}
state_text-IsReadBack state (some []) n h (e, f, k) = absurd (ground (arith, e))
state_text-IsReadBack state (some (c ∷ d)) n h (e, f, k) =
    let read = split_read state (c ∷ d) n h (after_spaces_read (c ∷ d) e f k) in
    record {
      some_text = is_empty-append state (codes ", " ++ (c ∷ d)) n;
      inside =
          rw (all-append in_state state (codes ", " ++ (c ∷ d)))
            (rw (in_state_of_name state h) (separator (c ∷ d) k));
      state_back = rw read refl;
      duration_back = rw read refl;
    }

-- A goroutine whose id is a number, whose state has no comma, bracket or line end, whose duration has no
-- bracket or line end and no white space in front, and whose stack is trimmed, is read back from the
-- text that copying it gives.
parse_part-format : (g : ParsedGoroutine) → IsPrinted g → parse_part (format_goroutine_text g) ≡ g
unfolding format_goroutine_text
parse_part-format g h =
    let r = state_text-IsReadBack g.state g.duration h.some_state h.state h.duration in
    parse_read g.id (state_text g.state g.duration) g.stack h.some_id h.id r.some_text r.inside
    ∙ rw (r.state_back, r.duration_back, h.stack) refl
