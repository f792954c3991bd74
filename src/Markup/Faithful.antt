-- ===== src/Markup/Faithful.antt =====
-- What a browser shows of the output of the JSON highlighter.
use mathlib.Core.Path.{subst}
use tsymbiote.Prelude.{
  ℕ, zero, suc, ◌≤◌, ◌≡◌, refl, sym, ap, inl, inr, Bool, true, false, ◌||◌, Option, some, [], ◌∷◌,
  ◌++◌, arith, Bool-cases, Option-cases, length, length-append,
}
use tsymbiote.Prelude.Text.{Text, codes, is_word, includes}
use tsymbiote.Prelude.Text.Laws.{Lacks, All-split, eq_of_nat_eq}
use tsymbiote.Markup.{escape_html, span}
use tsymbiote.Markup.Shown.{shown, visible, escape_html-Lacks}
use tsymbiote.Markup.Clear.{
  IsClear, Skips, shown-IsClear, plain-IsClear, append-IsClear, span-IsClear,
}
use tsymbiote.Markup.JsonText.{
  scan, all_but_last, ends_with, begins_with, paint, append_to, ends_word, replace_all,
  syntax_highlight,
}
use tsymbiote.Markup.Scanned.{Spells, scan-Spells}

all_but_last_append : (c : ℕ) (m : Text) → ends_with c m ≡ true → all_but_last m ++ c ∷ [] ≡ m
unfolding all_but_last
all_but_last_append c [] h = absurd (ground (arith, h))
all_but_last_append c (d ∷ []) h = cc (eq_of_nat_eq d c h)
all_but_last_append c (d ∷ e ∷ m) h = ap (λ t. d ∷ t) (all_but_last_append c (e ∷ m) h)

paint_key-IsClear :
    (key m : Text)
    → Lacks b'<' m
    → key ++ codes ":" ≡ m
    → IsClear (span (codes "cyan-400") key ++ span (codes "gray-300") (codes ":")) m
unfolding Skips visible
paint_key-IsClear key m h e =
    let (k, colon) = All-split b'<' key (codes ":") (subst (Lacks b'<') (sym e) h) in
    subst (IsClear (span (codes "cyan-400") key ++ span (codes "gray-300") (codes ":"))) e (
      append-IsClear (span (codes "cyan-400") key) (span (codes "gray-300") (codes ":")) key
        (codes ":") (span-IsClear (codes "cyan-400") key (λ r. refl) k)
        (span-IsClear (codes "gray-300") (codes ":") (λ r. refl) colon))

paint-IsClear : (m : Text) → Lacks b'<' m → IsClear (paint m) m
unfolding paint Skips visible
paint-IsClear m h = elim (Bool-cases (begins_with b'"' m)) [
  | inl b ↦ rw b (elim (Bool-cases (ends_with b':' m)) [
    | inl e ↦ rw e (paint_key-IsClear (all_but_last m) m h (all_but_last_append b':' m e))
    | inr e ↦ rw e (span-IsClear (codes "green-400") m (λ r. refl) h)
  ])
  | inr b ↦ rw b (elim (Bool-cases (includes m (codes "true") || includes m (codes "false"))) [
    | inl e ↦ rw e (span-IsClear (codes "yellow-400") m (λ r. refl) h)
    | inr e ↦ rw e (elim (Bool-cases (includes m (codes "null"))) [
      | inl n ↦ rw n (span-IsClear (codes "purple-400") m (λ r. refl) h)
      | inr n ↦ rw n (span-IsClear (codes "blue-400") m (λ r. refl) h)
    ])
  ])
]

unfoldable Returns : Option Text → Text → Type 0
Returns o t = (out : Text) × (o ≡ some out) × IsClear out t

append_to-Returns :
    (x s t : Text) (o : Option Text) → IsClear x s → Returns o t → Returns (append_to x o) (s ++ t)
unfolding Returns
append_to-Returns x s t o h (out, e, k) = (x ++ out, rw e refl, append-IsClear x out s t h k)

replace_all-Returns :
    (fuel : ℕ) (after_word : Bool) (s : Text)
    → length s ≤ fuel
    → Lacks b'<' s
    → Returns (replace_all fuel after_word s) s
unfolding replace_all Spells
replace_all-Returns fuel after_word [] l h = unfold Returns IsClear in ([], refl, λ rest. refl)
replace_all-Returns zero after_word (c ∷ s) l h = absurd (omega (arith, l))
replace_all-Returns (suc fuel) after_word (c ∷ s) l (ne, h) =
    elim (Option-cases (scan after_word (c ∷ s))) [
      | inl e ↦
          rw (replace_all, e)
            (append_to-Returns (c ∷ []) (c ∷ []) s _ (plain-IsClear (c ∷ []) (ne, tt))
              (replace_all-Returns fuel (is_word c) s (omega arith) h))
      | inr ((m, rest), e) ↦
          let (spelt, more) = subst (Spells (c ∷ s)) e (scan-Spells after_word (c ∷ s)) in
          let (k, kr) = All-split b'<' m rest (subst (Lacks b'<') spelt (ne, h)) in
          rw (replace_all, e)
            (subst (Returns _) (sym spelt) (
              append_to-Returns (paint m) m rest _ (paint-IsClear m k) (
                replace_all-Returns fuel (ends_word m) rest
                  (omega (arith, length-append m rest, ap length spelt, l, more)) kr)))
    ]

-- The JSON highlighter comes to an end on every text, and what the browser shows of its output is
-- the text.
pub syntax_highlight_shown :
    (json : Text) → (html : Text) × (syntax_highlight json ≡ some html) × (shown html ≡ json)
unfolding Returns syntax_highlight
syntax_highlight_shown json =
    let escaped = escape_html json in
    let (html, e, k) =
      replace_all-Returns (length escaped) false escaped (omega arith) (escape_html-Lacks json) in
    (html, e, shown-IsClear html json k)
