-- ===== src/Markup/LinesShown.antt =====
-- What a browser shows of the output of the Go highlighter.
use mathlib.Core.List.{append_assoc}
use tsymbiote.Prelude.{
  ℕ, ◌≡◌, refl, sym, ap, ◌∙◌, inl, inr, true, not, ◌&&◌, Option, none, some, List, [], ◌∷◌, ◌++◌,
  map, arith, nat_eq, Bool-cases,
}
use tsymbiote.Prelude.Text.{
  Text, codes, is_word, is_digit, is_empty, all, take_while, drop_while, split, join_with,
  split_last,
}
use tsymbiote.Prelude.Text.Laws.{
  eq_of_nat_eq, split_last_append, take_while-drop_while, after_append, join_with-split,
}
use tsymbiote.Markup.{escape_html}
use tsymbiote.Markup.Shown.{shown, visible, escape_html-Lacks}
use tsymbiote.Markup.Clear.{
  Skips, shown-IsClear, Marks, plain-Marks, span-Marks, append-Marks, Marks-of_eq,
}
use tsymbiote.Markup.GoTrace.{
  is_path, named, qualified, closes, paint_call, call_line, is_offset, paint_file, in_file_name,
  file_line, is_goroutine, paint_created, created_line, plain_line, other_line, or_other,
  highlight_line, highlight_stack_trace,
}

-- A qualified name and what follows it spell the line.
unfoldable Cuts : Text → Option (Text × Text × Text) → Type 0
Cuts line none = Unit
Cuts line (some (a, b, rest)) = line ≡ (a ++ codes ".") ++ b ++ rest

dot_append :
    (a b rest w line : Text)
    → w ++ rest ≡ line
    → w ≡ a ++ b'.' ∷ b
    → line ≡ (a ++ codes ".") ++ b ++ rest
dot_append a b rest w line e h =
    sym e ∙ ap (λ t. t ++ rest) (h ∙ sym (append_assoc a (codes ".") b))

named-Cuts :
    (line w rest : Text) (o : Option (Text × Text))
    → w ++ rest ≡ line
    → ((a b : Text) → o ≡ some (a, b) → w ≡ a ++ b'.' ∷ b)
    → Cuts line (named rest o)
unfolding Cuts named
named-Cuts line w rest none e h = tt
named-Cuts line w rest (some (a, b)) e h =
    elim (Bool-cases (not (is_empty a) && not (is_empty b) && all is_word b)) [
      | inl q ↦ rw q (dot_append a b rest w line e (h a b refl))
      | inr q ↦ rw q tt
    ]

qualified-Cuts : (line : Text) → Cuts line (qualified line)
unfolding qualified
qualified-Cuts line =
    named-Cuts line (take_while is_path line) (drop_while is_path line)
      (split_last b'.' (take_while is_path line)) (take_while-drop_while is_path line)
      (split_last_append b'.' (take_while is_path line))

unfoldable Clears : Text → Option Text → Type 0
Clears line none = Unit
Clears line (some html) = Marks html line

paint_call-Clears :
    (line : Text) (o : Option (Text × Text × Text)) → Cuts line o → Clears line (paint_call line o)
unfolding Clears paint_call Cuts Skips visible
paint_call-Clears line none k = tt
paint_call-Clears line (some (a, b, [])) k = tt
paint_call-Clears line (some (a, b, c ∷ rest)) k = elim (Bool-cases (nat_eq c b'(')) [
  | inl e ↦ rw e (elim (Bool-cases (closes rest)) [
    | inl q ↦ rw q (
        Marks-of_eq k (
          append-Marks
            (append-Marks (span-Marks (codes "gray-400") (a ++ codes ".") (λ r. refl))
              (span-Marks (codes "yellow-400") b (λ r. refl)))
            (span-Marks (codes "gray-500") (c ∷ rest) (λ r. refl))))
    | inr q ↦ rw q (plain-Marks line)
  ])
  | inr e ↦ rw e tt
]

created_append :
    (a b more rest line : Text)
    → line ≡ codes "created by " ++ rest
    → rest ≡ (a ++ codes ".") ++ b ++ more
    → line ≡ ((codes "created by " ++ (a ++ codes ".")) ++ b) ++ more
created_append a b more rest line e k =
    e
    ∙ ap (λ t. codes "created by " ++ t) (k ∙ append_assoc (a ++ codes ".") b more)
    ∙ sym (append_assoc (codes "created by ") (a ++ codes ".") (b ++ more))
    ∙ sym (append_assoc (codes "created by " ++ (a ++ codes ".")) b more)

paint_created-Marks :
    (line rest : Text) (o : Option (Text × Text × Text))
    → line ≡ codes "created by " ++ rest
    → Cuts rest o
    → Marks (paint_created line o) line
unfolding paint_created Cuts Skips visible
paint_created-Marks line rest none e k = plain-Marks line
paint_created-Marks line rest (some (a, b, more)) e k = elim (Bool-cases (is_goroutine more)) [
  | inl q ↦ rw q (
      Marks-of_eq (created_append a b more rest line e k) (
        append-Marks
          (append-Marks
            (append-Marks (span-Marks (codes "purple-400") (codes "created by ") (λ r. refl))
              (span-Marks (codes "gray-400") (a ++ codes ".") (λ r. refl)))
            (span-Marks (codes "yellow-400") b (λ r. refl)))
          (span-Marks (codes "gray-500") more (λ r. refl))))
  | inr q ↦ rw q (plain-Marks line)
]

file_append :
    (c : ℕ) (file rest line : Text)
    → nat_eq c b':' ≡ true
    → line ≡ b'\t' ∷ (file ++ c ∷ rest)
    → line ≡ ((b'\t' ∷ file) ++ codes ":") ++ take_while is_digit rest ++ drop_while is_digit rest
file_append c file rest line e h =
    h
    ∙ ap (λ t. b'\t' ∷ (file ++ t)) (cc (eq_of_nat_eq c b':' e))
    ∙ sym (append_assoc (b'\t' ∷ file) (codes ":") rest)
    ∙ ap (λ t. ((b'\t' ∷ file) ++ codes ":") ++ t) (sym (take_while-drop_while is_digit rest))
    ∙ sym (
        append_assoc ((b'\t' ∷ file) ++ codes ":") (take_while is_digit rest)
          (drop_while is_digit rest))

paint_file-Marks :
    (line file rest : Text) → line ≡ b'\t' ∷ (file ++ rest) → Marks (paint_file line file rest) line
unfolding paint_file Skips visible
paint_file-Marks line file [] e = plain-Marks line
paint_file-Marks line file (c ∷ rest) e =
    elim (Bool-cases (
      nat_eq c b':'
      && not (is_empty file)
      && not (is_empty (take_while is_digit rest))
      && is_offset (drop_while is_digit rest))) [
        | inl q ↦ rw q (
            Marks-of_eq (file_append c file rest line (ground (arith, q)) e) (
              append-Marks
                (append-Marks
                  (append-Marks
                    (append-Marks (plain-Marks (b'\t' ∷ []))
                      (span-Marks (codes "cyan-400") file (λ r. refl)))
                    (plain-Marks (codes ":")))
                  (span-Marks (codes "blue-400") (take_while is_digit rest) (λ r. refl)))
                (span-Marks (codes "gray-500") (drop_while is_digit rest) (λ r. refl))))
        | inr q ↦ rw q (plain-Marks line)
      ]

plain_line-Marks :
    (line : Text) (o : Option Text)
    → ((r : Text) → o ≡ some r → line ≡ codes "created by " ++ r)
    → Marks (plain_line line o) line
unfolding plain_line created_line Skips visible
plain_line-Marks line none h = span-Marks (codes "gray-300") line (λ r. refl)
plain_line-Marks line (some rest) h =
    paint_created-Marks line rest (qualified rest) (h rest refl) (qualified-Cuts rest)

other_line-Marks : (line : Text) → Marks (other_line line) line
unfolding other_line file_line
other_line-Marks [] = plain_line-Marks [] _ (after_append (codes "created by ") [])
other_line-Marks (c ∷ rest) = elim (Bool-cases (nat_eq c b'\t')) [
  | inl e ↦ rw e (
      paint_file-Marks (c ∷ rest) (take_while in_file_name rest) (drop_while in_file_name rest)
        (cc (eq_of_nat_eq c b'\t' e, take_while-drop_while in_file_name rest)))
  | inr e ↦ rw e (plain_line-Marks (c ∷ rest) _ (after_append (codes "created by ") (c ∷ rest)))
]

or_other-Marks : (line : Text) (o : Option Text) → Clears line o → Marks (or_other line o) line
unfolding or_other Clears
or_other-Marks line none h = other_line-Marks line
or_other-Marks line (some html) h = h

highlight_line-Marks : (line : Text) → Marks (highlight_line line) line
unfolding highlight_line call_line
highlight_line-Marks line =
    or_other-Marks line (call_line line)
      (paint_call-Clears line (qualified line) (qualified-Cuts line))

join_with-Marks :
    (ls : List Text) → Marks (join_with b'\n' (map highlight_line ls)) (join_with b'\n' ls)
unfolding join_with
join_with-Marks [] = plain-Marks []
join_with-Marks (l ∷ []) = highlight_line-Marks l
join_with-Marks (l ∷ m ∷ ls) =
    append-Marks (highlight_line-Marks l)
      (append-Marks (plain-Marks (b'\n' ∷ [])) (join_with-Marks (m ∷ ls)))

-- What the browser shows of a stack trace that the Go highlighter has marked is the stack trace.
pub highlight_stack_trace_shown : (trace : Text) → shown (highlight_stack_trace trace) ≡ trace
unfolding highlight_stack_trace
highlight_stack_trace_shown trace =
    let lines = split b'\n' (escape_html trace) in
    let marked =
      Marks-of_eq (sym (join_with-split b'\n' (escape_html trace))) (join_with-Marks lines) in
    shown-IsClear (highlight_stack_trace trace) trace (marked.clear (escape_html-Lacks trace))
