-- ===== src/Prelude/Text/Laws.antt =====
-- What is cut off a text and what is left spell the text.
use Prim.Native.Nat.{ℕ}
use mathlib.Core.Path.{◌≡◌, refl, ap, ◌∙◌}
use mathlib.Core.Logic.{◌≢◌, inl, inr}
use mathlib.Core.Bool.{Bool, true}
use mathlib.Core.Option.{some}
use mathlib.Core.List.{List, [], ◌∷◌, ◌++◌}
use native.Mathlib.Omega.{arith}
use tsymbiote.Prelude.Tests.{nat_eq, Bool-cases, Option-cases}
use tsymbiote.Prelude.Lists.{All}
use tsymbiote.Prelude.Text.{Text, take_while, drop_while, after, split, push, join_with, split_last}

-- No character of the text is `b`.
abbrev pub Lacks : ℕ → Text → Type 0
Lacks b = All (λ c. c ≢ b)

pub take_while-drop_while : (p : ℕ → Bool) (s : Text) → take_while p s ++ drop_while p s ≡ s
unfolding take_while drop_while
take_while-drop_while p [] = refl
take_while-drop_while p (c ∷ s) = elim (Bool-cases (p c)) [
  | inl e ↦ rw e (ap (λ t. c ∷ t) (take_while-drop_while p s))
  | inr e ↦ rw e refl
]

pub eq_of_nat_eq : (a b : ℕ) → nat_eq a b ≡ true → a ≡ b
eq_of_nat_eq a b h = ground arith

pub after_append : (p s r : Text) → after p s ≡ some r → s ≡ p ++ r
unfolding after
after_append [] s r h = cc
after_append (c ∷ p) [] r h = absurd (ground (arith, h))
after_append (c ∷ p) (d ∷ s) r h = elim (Bool-cases (nat_eq c d)) [
  | inl e ↦ let q = rw e at h in cc (after_append p s r q, eq_of_nat_eq c d e)
  | inr e ↦ absurd (ground (arith, h, e))
]

pub split_last_append : (c : ℕ) (s a b : Text) → split_last c s ≡ some (a, b) → s ≡ a ++ c ∷ b
unfolding split_last
split_last_append c [] a b h = absurd (ground (arith, h))
split_last_append c (d ∷ s) a b h = elim (Option-cases (split_last c s)) [
  | inl e ↦ elim (Bool-cases (nat_eq d c)) [
    | inl q ↦ let r = rw e at h in let t = rw q at r in cc (eq_of_nat_eq d c q, t)
    | inr q ↦ absurd (ground (arith, h, e, q))
  ]
  | inr ((x, y), e) ↦ let r = rw e at h in cc (r, split_last_append c s x y e)
]

join_with-push : (c d : ℕ) (ls : List Text) → ls ≢ [] → join_with c (push d ls) ≡ d ∷ join_with c ls
unfolding join_with push
join_with-push c d [] h = absurd (h refl)
join_with-push c d (l ∷ []) h = refl
join_with-push c d (l ∷ m ∷ ls) h = refl

push-ne-nil : (d : ℕ) (ls : List Text) → push d ls ≢ []
unfolding push
push-ne-nil d [] h = cc
push-ne-nil d (l ∷ ls) h = cc

pub split-ne-nil : (c : ℕ) (s : Text) → split c s ≢ []
unfolding split
split-ne-nil c [] h = cc
split-ne-nil c (d ∷ s) h = ground (arith, push-ne-nil d (split c s), h)

join_with_new : (c : ℕ) (ls : List Text) → ls ≢ [] → join_with c ([] ∷ ls) ≡ c ∷ join_with c ls
unfolding join_with
join_with_new c [] h = absurd (h refl)
join_with_new c (l ∷ ls) h = refl

-- Joining the lines of a text gives the text.
pub join_with-split : (c : ℕ) (s : Text) → join_with c (split c s) ≡ s
unfolding split
join_with-split c [] = unfold join_with in refl
join_with-split c (d ∷ s) = elim (Bool-cases (nat_eq d c)) [
  | inl e ↦ rw e (
      join_with_new c (split c s) (split-ne-nil c s) ∙ cc (join_with-split c s, eq_of_nat_eq d c e))
  | inr e ↦
      rw e
        (join_with-push c d (split c s) (split-ne-nil c s) ∙ ap (λ t. d ∷ t) (join_with-split c s))
]

-- A part of a text without a character is without it.
pub All-split : (b : ℕ) (x y : Text) → Lacks b (x ++ y) → Lacks b x × Lacks b y
All-split b [] y h = (tt, h)
All-split b (c ∷ x) y (ne, h) = let (k, l) = All-split b x y h in ((ne, k), l)

push-Lacks :
    (b d : ℕ) (ls : List Text) → Lacks b (d ∷ []) → All (Lacks b) ls → All (Lacks b) (push d ls)
unfolding push
push-Lacks b d [] h k = (h, tt)
push-Lacks b d (l ∷ ls) (ne, h) (k, ks) = ((ne, k), ks)

pub split-Lacks : (b c : ℕ) (s : Text) → Lacks b s → All (Lacks b) (split c s)
unfolding split
split-Lacks b c [] h = (tt, tt)
split-Lacks b c (d ∷ s) (ne, h) = elim (Bool-cases (nat_eq d c)) [
  | inl e ↦ rw e (tt, split-Lacks b c s h)
  | inr e ↦ rw e (push-Lacks b d (split c s) (ne, tt) (split-Lacks b c s h))
]
