-- ===== src/Prelude/Text/Cuts.antt =====
-- Where the longest beginning of characters with a property ends, and what trimming and splitting
-- give at a known place.
use Prim.Native.Nat.{ℕ}
use mathlib.Core.Path.{◌≡◌, refl}
use mathlib.Core.Bool.{Bool, true, false, not, ◌&&◌}
use mathlib.Core.List.{[], ◌∷◌, ◌++◌}
use native.Mathlib.Omega.{arith}
use tsymbiote.Prelude.Tests.{nat_eq}
use tsymbiote.Prelude.Text.{Text, take_while, drop_while, split, push, all}

pub all-append : (p : ℕ → Bool) (x y : Text) → all p (x ++ y) ≡ (all p x && all p y)
unfolding all
all-append p [] y = refl
all-append p (c ∷ x) y = ground (arith, all-append p x y)

pub all_of_all :
    (p q : ℕ → Bool) (x : Text)
    → ((c : ℕ) → p c ≡ true → q c ≡ true)
    → all p x ≡ true
    → all q x ≡ true
unfolding all
all_of_all p q [] f h = refl
all_of_all p q (c ∷ x) f h = ground (arith, f c, h, all_of_all p q x f)

pub take_while_stop :
    (p : ℕ → Bool) (x : Text) (c : ℕ) (y : Text)
    → all p x ≡ true
    → p c ≡ false
    → take_while p (x ++ c ∷ y) ≡ x
unfolding take_while all
take_while_stop p [] c y h k = rw k refl
take_while_stop p (d ∷ x) c y h k =
    rw (take_while_stop p x c y (ground (arith, h)) k) (ground (arith, h))

pub drop_while_stop :
    (p : ℕ → Bool) (x : Text) (c : ℕ) (y : Text)
    → all p x ≡ true
    → p c ≡ false
    → drop_while p (x ++ c ∷ y) ≡ c ∷ y
unfolding drop_while all
drop_while_stop p [] c y h k = rw k refl
drop_while_stop p (d ∷ x) c y h k =
    rw (drop_while_stop p x c y (ground (arith, h)) k) (ground (arith, h))

pub split_first :
    (c : ℕ) (x y : Text)
    → all (λ d. not (nat_eq d c)) x ≡ true
    → split c (x ++ c ∷ y) ≡ x ∷ split c y
unfolding split all push
split_first c [] y h = ground arith
split_first c (d ∷ x) y h = rw (split_first c x y (ground (arith, h))) (ground (arith, h))
