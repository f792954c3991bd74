-- ===== src/Prelude/Text/Trim.antt =====
-- White space behind a text does not matter to trimming.
use Prim.Native.Nat.{ℕ}
use mathlib.Core.Path.{◌≡◌, refl, sym, ap, ◌∙◌}
use mathlib.Core.Logic.{inl, inr}
use mathlib.Core.Bool.{Bool, true, false}
use mathlib.Core.List.{[], ◌∷◌, ◌++◌, append-nil, reverse, reverse-append, reverse-cons}
use native.Mathlib.Omega.{arith}
use tsymbiote.Prelude.Tests.{if◌then◌else◌, Bool-cases}
use tsymbiote.Prelude.Text.{Text, drop_while, is_space, is_empty, all, trim, trim_start}

drop_while-append :
    (p : ℕ → Bool) (x y : Text) → all p x ≡ true → drop_while p (x ++ y) ≡ drop_while p y
unfolding drop_while all
drop_while-append p [] y h = refl
drop_while-append p (c ∷ x) y h =
    rw (drop_while-append p x y (ground (arith, h))) (ground (arith, h))

drop_while-append_spaces :
    (p : ℕ → Bool) (x y : Text)
    → all p y ≡ true
    → drop_while p (x ++ y) ≡ (if is_empty (drop_while p x) then [] else drop_while p x ++ y)
unfolding drop_while all
drop_while-append_spaces p [] y h =
    ap (drop_while p) (sym (append-nil y)) ∙ drop_while-append p y [] h
drop_while-append_spaces p (c ∷ x) y h = elim (Bool-cases (p c)) [
  | inl e ↦ rw e (drop_while-append_spaces p x y h)
  | inr e ↦ rw e refl
]

trim_end : Text → Text
trim_end s = reverse (drop_while is_space (reverse s))

trim_end-append : (s w : Text) → all is_space (reverse w) ≡ true → trim_end (s ++ w) ≡ trim_end s
unfolding trim_end
trim_end-append s w h =
    ap (λ t. reverse (drop_while is_space t)) (reverse-append s w)
    ∙ ap reverse (drop_while-append is_space (reverse w) (reverse s) h)

trim_end_if :
    (t w : Text)
    → all is_space (reverse w) ≡ true
    → trim_end (if is_empty t then [] else t ++ w) ≡ trim_end t
trim_end_if [] w h = refl
trim_end_if (c ∷ t) w h = trim_end-append (c ∷ t) w h

pub trim-append :
    (s w : Text) → all is_space w ≡ true → all is_space (reverse w) ≡ true → trim (s ++ w) ≡ trim s
unfolding trim trim_start trim_end
trim-append s w h k =
    ap trim_end (drop_while-append_spaces is_space s w h) ∙ trim_end_if (drop_while is_space s) w k

is_empty_end : (x : Text) (c : ℕ) → is_empty (x ++ c ∷ []) ≡ false
is_empty_end [] c = refl
is_empty_end (d ∷ x) c = refl

is_empty-reverse : (x : Text) → is_empty x ≡ false → is_empty (reverse x) ≡ false
is_empty-reverse [] h = absurd (ground (arith, h))
is_empty-reverse (c ∷ x) h = ap is_empty (reverse-cons c x) ∙ is_empty_end (reverse x) c

drop_while_end :
    (p : ℕ → Bool) (x : Text) (c : ℕ) → p c ≡ false → is_empty (drop_while p (x ++ c ∷ [])) ≡ false
unfolding drop_while
drop_while_end p [] c h = rw h refl
drop_while_end p (d ∷ x) c h = elim (Bool-cases (p d)) [
  | inl e ↦ rw e (drop_while_end p x c h)
  | inr e ↦ rw e refl
]

-- A text that begins with no white space has something left.
pub is_empty-trim : (c : ℕ) (s : Text) → is_space c ≡ false → is_empty (trim (c ∷ s)) ≡ false
unfolding trim trim_start drop_while
is_empty-trim c s h = rw h (
    is_empty-reverse _ (
      ap (λ t. is_empty (drop_while is_space t)) (reverse-cons c s)
      ∙ drop_while_end is_space (reverse s) c h))
