-- ===== src/Goroutines/Dump.antt =====
-- A dump of goroutines, each followed by a blank line, is read back goroutine by goroutine.
use mathlib.Core.List.{append_assoc}
use tsymbiote.Prelude.{
  ℕ, ◌≡◌, refl, sym, ap, ◌∙◌, List, [], ◌∷◌, ◌++◌, map, filter, some, Bool, true, false, not, ◌&&◌,
  nat_eq, if◌then◌else◌, arith, All,
}
use tsymbiote.Prelude.Text.{
  Text, codes, is_digit, is_space, is_line_end, is_empty, all, after, trim, push,
}
use tsymbiote.Prelude.Text.Trim.{trim-append, is_empty-trim}
use tsymbiote.Goroutines.{
  ParsedGoroutine, begins_digit, begins_goroutine, cut, state_text, parse_part, parse_goroutines,
}
use tsymbiote.Goroutines.Printed.{
  IsPrinted, top_line, top_line_append, no_line_end_in_top, parse_read, state_text-IsReadBack,
}

-- No line of the text begins with "goroutine " and a digit; the flag is whether a line begins here.
unfoldable pub no_start : Bool → Text → Bool
no_start at_line [] = true
no_start at_line (c ∷ s) = not (at_line && begins_goroutine (c ∷ s)) && no_start (is_line_end c) s

-- The text goes on the first part.
abbrev onto : Text → List Text → List Text
onto x [] = x ∷ []
onto x (l ∷ ls) = (x ++ l) ∷ ls

after_stop :
    (p x y : Text)
    → all (λ c. not (nat_eq c b'\n')) p ≡ true
    → begins_digit (after p (x ++ b'\n' ∷ y)) ≡ begins_digit (after p x)
unfolding after all begins_digit
after_stop [] [] y h = ground arith
after_stop [] (d ∷ x) y h = refl
after_stop (c ∷ p) [] y h = ground (arith, h)
after_stop (c ∷ p) (d ∷ x) y h = ground (arith, h, after_stop p x y)

begins-append : (x y : Text) → begins_goroutine (x ++ b'\n' ∷ y) ≡ begins_goroutine x
unfolding begins_goroutine all
begins-append x y = after_stop (codes "goroutine ") x y refl

onto-push : (c : ℕ) (x : Text) (ls : List Text) → push c (onto x ls) ≡ onto (c ∷ x) ls
unfolding push
onto-push c x [] = refl
onto-push c x (l ∷ ls) = refl

newline_onto : (ls : List Text) → push b'\n' ls ≡ onto [] (onto (codes "\n") ls)
unfolding push
newline_onto [] = refl
newline_onto (l ∷ ls) = refl

not_cut : (g : Bool) (xs ys : List Text) → g ≡ false → (if g then xs else ys) ≡ ys
not_cut true xs ys h = absurd (ground (arith, h))
not_cut false xs ys h = refl

newline_begins : (y : Text) → begins_goroutine (b'\n' ∷ y) ≡ false
unfolding begins_goroutine begins_digit after
newline_begins y = refl

newline_onto-cut :
    (y : Text) → push b'\n' (cut (is_line_end b'\n') y) ≡ onto [] (onto (codes "\n") (cut true y))
unfolding is_line_end
newline_onto-cut y = newline_onto (cut true y)

-- A text in which no goroutine begins is not cut up to its end.
cut-append :
    (b : Bool) (x y : Text)
    → no_start b x ≡ true
    → cut b (x ++ b'\n' ∷ y) ≡ onto x (onto (codes "\n") (cut true y))
unfolding cut no_start
cut-append b [] y h =
    not_cut (b && begins_goroutine (b'\n' ∷ y)) _ _ (ground (arith, newline_begins y))
    ∙ newline_onto-cut y
cut-append b (c ∷ x) y h =
    not_cut (b && begins_goroutine (c ∷ (x ++ b'\n' ∷ y))) _ _
      (ground (arith, h, begins-append (c ∷ x) y))
    ∙ ap (push c) (cut-append (is_line_end c) x y (ground (arith, h)))
    ∙ onto-push c x (onto (codes "\n") (cut true y))

no_start_in_line : (x : Text) → all (λ c. not (is_line_end c)) x ≡ true → no_start false x ≡ true
unfolding all no_start
no_start_in_line [] h = refl
no_start_in_line (c ∷ x) h = ground (arith, h, no_start_in_line x)

-- A goroutine and the blank line behind it.
unfoldable block : ParsedGoroutine → Text
block g = top_line g.id (state_text g.state g.duration) ++ b'\n' ∷ (g.stack ++ codes "\n\n")

-- The goroutines one after the other, each followed by a blank line.
unfoldable pub print_dump : List ParsedGoroutine → Text
unfolding block
print_dump [] = []
print_dump (g ∷ gs) = block g ++ print_dump gs

-- What a dump can have, with no line of a stack that begins a goroutine.
pub record IsDumped (g : ParsedGoroutine) : Type 0 where
  pub printed : IsPrinted g
  pub one : no_start true g.stack ≡ true

block_append :
    (g : ParsedGoroutine) (rest : Text)
    → block g ++ rest
      ≡ top_line g.id (state_text g.state g.duration) ++ b'\n' ∷ (g.stack ++ b'\n' ∷ b'\n' ∷ rest)
unfolding block
block_append g rest = simp append_assoc

cut_newline : (y : Text) → cut true (b'\n' ∷ y) ≡ push b'\n' (cut true y)
unfolding cut is_line_end
cut_newline y = not_cut (begins_goroutine (b'\n' ∷ y)) _ _ (newline_begins y)

cut-block :
    (g : ParsedGoroutine) (rest : Text) (ls : List Text)
    → IsDumped g
    → cut true rest ≡ [] ∷ ls
    → cut false (block g ++ rest) ≡ block g ∷ ls
unfolding block push
cut-block g rest ls h e =
    let r =
      state_text-IsReadBack g.state g.duration h.printed.some_state h.printed.state
        h.printed.duration in
    let top = top_line g.id (state_text g.state g.duration) in
    ap (cut false) (block_append g rest)
    ∙ cut-append false top (g.stack ++ b'\n' ∷ b'\n' ∷ rest) (
        no_start_in_line top
          (no_line_end_in_top g.id (state_text g.state g.duration) h.printed.id r.inside))
    ∙ ap (λ ms. onto top (onto (codes "\n") ms)) (cut-append true g.stack (b'\n' ∷ rest) h.one)
    ∙ ap (λ ms. onto top (onto (codes "\n") (onto g.stack (onto (codes "\n") ms))))
        (cut_newline rest ∙ ap (push b'\n') e)

digit-append : (x y : Text) → begins_digit (some x) ≡ true → begins_digit (some (x ++ y)) ≡ true
unfolding begins_digit
digit-append [] y h = absurd (ground (arith, h))
digit-append (c ∷ x) y h = h

id_digit : (x : Text) → is_empty x ≡ false → all is_digit x ≡ true → begins_digit (some x) ≡ true
unfolding begins_digit all
id_digit [] n h = absurd (ground (arith, n))
id_digit (c ∷ x) n h = ground (arith, h)

block_begins :
    (g : ParsedGoroutine) (rest : Text) → IsPrinted g → begins_goroutine (block g ++ rest) ≡ true
unfolding begins_goroutine begins_digit after block all
block_begins g rest h =
    digit-append
      ((g.id ++ (codes " [" ++ (state_text g.state g.duration ++ codes "]:")))
        ++ b'\n' ∷ (g.stack ++ codes "\n\n"))
      rest
      (digit-append (g.id ++ (codes " [" ++ (state_text g.state g.duration ++ codes "]:")))
        (b'\n' ∷ (g.stack ++ codes "\n\n"))
        (digit-append g.id (codes " [" ++ (state_text g.state g.duration ++ codes "]:"))
          (id_digit g.id h.some_id h.id)))

-- What begins a goroutine is cut off from what stands before it.
cut_begun :
    (c : ℕ) (s : Text) → begins_goroutine (c ∷ s) ≡ true → cut true (c ∷ s) ≡ [] ∷ cut false (c ∷ s)
unfolding cut
cut_begun c s h = rw h refl

cut-print_dump :
    (gs : List ParsedGoroutine) → All IsDumped gs → cut true (print_dump gs) ≡ [] ∷ map block gs
unfolding print_dump block
cut-print_dump [] h = unfold cut in refl
cut-print_dump (g ∷ gs) (h, hs) =
    cut_begun b'g' _ (block_begins g (print_dump gs) h.printed)
    ∙ ap (λ ls. [] ∷ ls) (cut-block g (print_dump gs) (map block gs) h (cut-print_dump gs hs))

blank : all is_space (codes "\n\n") ≡ true
unfolding all is_space
blank = refl

parse_part-block : (g : ParsedGoroutine) → IsPrinted g → parse_part (block g) ≡ g
unfolding block
parse_part-block g h =
    let r = state_text-IsReadBack g.state g.duration h.some_state h.state h.duration in
    ap parse_part (
      sym
        (top_line_append g.id (state_text g.state g.duration) (b'\n' ∷ (g.stack ++ codes "\n\n"))))
    ∙ parse_read g.id (state_text g.state g.duration) (g.stack ++ codes "\n\n") h.some_id h.id
        r.some_text r.inside
    ∙ rw (r.state_back, r.duration_back)
        (rw (trim-append g.stack (codes "\n\n") blank blank) (rw h.stack refl))

no_space : is_space b'g' ≡ false
unfolding is_space
no_space = refl

kept_blocks :
    (gs : List ParsedGoroutine)
    → filter (λ part. not (is_empty (trim part))) (map block gs) ≡ map block gs
unfolding block
kept_blocks [] = refl
kept_blocks (g ∷ gs) = rw (is_empty-trim b'g' _ no_space) (ap (λ ls. block g ∷ ls) (kept_blocks gs))

parse-blocks : (gs : List ParsedGoroutine) → All IsDumped gs → map parse_part (map block gs) ≡ gs
parse-blocks [] h = refl
parse-blocks (g ∷ gs) (h, hs) = cc (parse_part-block g h.printed, parse-blocks gs hs)

-- A dump of goroutines whose headers and stacks are as described is read back as the goroutines that it
-- was written from, in their order.
pub parse_goroutines-print_dump :
    (gs : List ParsedGoroutine) → All IsDumped gs → parse_goroutines (print_dump gs) ≡ gs
unfolding parse_goroutines print_dump
parse_goroutines-print_dump [] h = unfold cut trim is_space in refl
parse_goroutines-print_dump (g ∷ gs) (h, hs) =
    ap (λ ls. map parse_part (filter (λ part. not (is_empty (trim part))) ls))
      (cut-block g (print_dump gs) (map block gs) h (cut-print_dump gs hs))
    ∙ ap (map parse_part) (kept_blocks (g ∷ gs))
    ∙ parse-blocks (g ∷ gs) (h, hs)
