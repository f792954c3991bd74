-- ===== src/Keyboard/Cycle.antt =====
-- Going to the next entry of a list and back.
use tsymbiote.Prelude.{
  ℕ, zero, suc, ◌+◌, ◌-◌, ◌%◌, ◌<◌, String, ◌≡◌, sym, ap, ◌∙◌, inl, inr, Bool, true, false,
  false≢true, not, some, List, [], ◌∷◌, arith, ◌==◌, eq_iff, ltb, Bool-cases, length, get_elem?,
  get_elem?-lt,
}
use native.Mathlib.Nat.{mod-eq_of_lt, mod_self, mod-eq-sub-mod, mod-lt}
use tsymbiote.Prelude.JsSet.{has, IsUnique}
use tsymbiote.Keyboard.{place, next_index, cycle}

has_of_get_elem? :
    (xs : List String) (i : ℕ) {x : String} → get_elem? xs i ≡ some x → has xs x ≡ true
unfolding has
has_of_get_elem? [] i h = absurd (ground (arith, h))
has_of_get_elem? (y ∷ ys) zero {x} h = ground (arith, (eq_iff y x).1 (ground (arith, h)))
has_of_get_elem? (y ∷ ys) (suc i) h = ground (arith, has_of_get_elem? ys i h)

place_of_get_elem? :
    (xs : List String) (i : ℕ) {x : String}
    → IsUnique xs
    → get_elem? xs i ≡ some x
    → place xs x ≡ suc i
unfolding place
place_of_get_elem? [] i u h = absurd (ground (arith, h))
place_of_get_elem? (y ∷ ys) zero {x} u h = ground (arith, (eq_iff y x).1 (ground (arith, h)))
place_of_get_elem? (y ∷ ys) (suc i) {x} (new, u) h = elim (Bool-cases (y == x)) [
  | inl e ↦ absurd (false≢true (sym new ∙ rw ((eq_iff y x).0 e) (has_of_get_elem? ys i h)))
  | inr e ↦ rw e (ground (arith, place_of_get_elem? ys i u h))
]

get_elem?_of_has :
    (xs : List String) (x : String)
    → has xs x ≡ true
    → (i : ℕ) × (i < length xs) × (get_elem? xs i ≡ some x)
unfolding has
get_elem?_of_has [] x h = absurd (ground (arith, h))
get_elem?_of_has (y ∷ ys) x h = elim (Bool-cases (y == x)) [
  | inl e ↦ (zero, omega arith, ap (λ z. some z) ((eq_iff y x).0 e))
  | inr e ↦
      let (i, l, g) = get_elem?_of_has ys x (ground (arith, h, e)) in (suc i, omega (arith, l), g)
]

wrap : (i n : ℕ) → i < n → (i + n) % n ≡ i
wrap i n l = mod-eq-sub-mod (omega arith) ∙ ap (λ k. k % n) (omega arith) ∙ mod-eq_of_lt l

last_wraps : (i n : ℕ) → i < n → ltb (suc i) n ≡ false → suc i % n ≡ 0
last_wraps i n l e = ap (λ k. k % n) (ground (arith, e)) ∙ mod_self n

-- Forth and back.
next_index_back : (i n : ℕ) → i < n → next_index true (suc (next_index false (suc i) n)) n ≡ i
unfolding next_index
next_index_back i n l = elim (Bool-cases (ltb (suc i) n)) [
  | inl e ↦
      ap (λ k. (suc k + n - 2) % n) (mod-eq_of_lt (ground (arith, e)))
      ∙ ap (λ k. k % n) (omega arith)
      ∙ wrap i n l
  | inr e ↦
      ap (λ k. (suc k + n - 2) % n) (last_wraps i n l e)
      ∙ ap (λ k. k % n) (ground (arith, e))
      ∙ mod-eq_of_lt l
]

back_next_index : (i n : ℕ) → i < n → next_index false (suc (next_index true (suc i) n)) n ≡ i
unfolding next_index
back_next_index zero n l =
    ap (λ k. suc k % n) (mod-eq_of_lt {n = suc zero + n - 2} (omega arith))
    ∙ ap (λ k. k % n) (omega arith)
    ∙ mod_self n
back_next_index (suc j) n l =
    ap (λ k. suc k % n) (ap (λ k. k % n) (omega arith) ∙ wrap j n (omega arith)) ∙ mod-eq_of_lt l

next_index-lt : (b : Bool) (at n : ℕ) → 0 < n → next_index b at n < n
unfolding next_index
next_index-lt true at n l = mod-lt (at + n - 2) l
next_index-lt false at n l = mod-lt at l

undo : (b : Bool) (i n : ℕ) → i < n → next_index (not b) (suc (next_index b (suc i) n)) n ≡ i
undo true i n l = back_next_index i n l
undo false i n l = next_index_back i n l

cycle_at :
    (b : Bool) (xs : List String) (x : String) (i : ℕ)
    → place xs x ≡ suc i
    → cycle b xs x ≡ get_elem? xs (next_index b (suc i) (length xs))
unfolding cycle
cycle_at b xs x i at = ap (λ k. get_elem? xs (next_index b k (length xs))) at

cycle_pair :
    (b : Bool) (xs : List String) (x y : String) (i : ℕ)
    → IsUnique xs
    → i < length xs
    → get_elem? xs i ≡ some x
    → get_elem? xs (next_index b (suc i) (length xs)) ≡ some y
    → (cycle b xs x ≡ some y) × (has xs y ≡ true) × (cycle (not b) xs y ≡ some x)
cycle_pair b xs x y i u l g k = (
  cycle_at b xs x i (place_of_get_elem? xs i u g) ∙ k,
  has_of_get_elem? xs (next_index b (suc i) (length xs)) k,
  cycle_at (not b) xs y (next_index b (suc i) (length xs))
        (place_of_get_elem? xs (next_index b (suc i) (length xs)) u k)
      ∙ ap (get_elem? xs) (undo b i (length xs) l)
      ∙ g,
)

-- In a list of distinct entries, from each entry a step in one direction leads to an entry, and a
-- step in the other direction leads back.
pub cycle-cycle :
    (b : Bool) (xs : List String) (x : String)
    → IsUnique xs
    → has xs x ≡ true
    → (y : String) × (cycle b xs x ≡ some y) × (has xs y ≡ true) × (cycle (not b) xs y ≡ some x)
cycle-cycle b xs x u h =
    let (i, l, g) = get_elem?_of_has xs x h in
    let (y, k) =
      get_elem?-lt xs (next_index b (suc i) (length xs))
        (next_index-lt b (suc i) (length xs) (omega (arith, l))) in
    let (forth, known, back) = cycle_pair b xs x y i u l g k in (y, forth, known, back)
