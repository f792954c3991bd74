-- ===== src/Formats/Ages.antt =====
-- What the age of a timestamp is shown as.
use tsymbiote.Prelude.{
  ℕ, ◌+◌, ◌*◌, ◌/◌, ◌<◌, ◌≤◌, ◌≡◌, refl, inl, inr, String, ◌+++◌, false, ◌||◌, ◌==◌, ltb, nat_eq,
  if◌then◌else◌, arith, Bool-cases,
}
use tsymbiote.Prelude.Decimal.{show}
use tsymbiote.Formats.{Difference, past, ahead, past_text, difference_text, format_timestamp}

-- The texts for an age: the whole minutes below an hour, the whole hours below a day, the whole days
-- below a week, and then the date.
pub data IsAge (date : String) (ms : ℕ) : String → Type 0 where
  minutes :
      (m : ℕ) → m < 60 → 60000 * m ≤ ms → ms < 60000 * (m + 1) → IsAge date ms (show m +++ "m ago")
  hours :
      (h : ℕ)
      → 0 < h
      → h < 24
      → 3600000 * h ≤ ms
      → ms < 3600000 * (h + 1)
      → IsAge date ms (show h +++ "h ago")
  days :
      (d : ℕ)
      → 0 < d
      → d < 7
      → 86400000 * d ≤ ms
      → ms < 86400000 * (d + 1)
      → IsAge date ms (show d +++ "d ago")
  older : 7 * 86400000 ≤ ms → IsAge date ms date

past_text-IsAge : (date : String) (ms : ℕ) → IsAge date ms (past_text date ms)
unfolding past_text
past_text-IsAge date ms = elim (Bool-cases (nat_eq (ms / 86400000) 0)) [
  | inl d ↦ rw d (elim (Bool-cases (nat_eq (ms / 3600000) 0)) [
    | inl h ↦ rw h (minutes (ms / 60000) (ground (arith, h)) (omega arith) (omega arith))
    | inr h ↦
        rw h
          (hours (ms / 3600000) (ground (arith, h)) (ground (arith, d)) (omega arith) (omega arith))
  ])
  | inr d ↦ rw d (elim (Bool-cases (ltb (ms / 86400000) 7)) [
    | inl w ↦
        rw w
          (days (ms / 86400000) (ground (arith, d)) (ground (arith, w)) (omega arith) (omega arith))
    | inr w ↦ rw w (older (ground (arith, w)))
  ])
]

-- A timestamp that is set and not after now is shown as its age, or from a week on as its date.
pub format_timestamp-IsAge :
    (difference : String → Difference) (local_date : String → String) (t : String) (ms : ℕ)
    → ((t == "") || (t == "0001-01-01T00:00:00Z")) ≡ false
    → difference t ≡ past ms
    → IsAge (local_date t) ms (format_timestamp difference local_date t)
unfolding format_timestamp difference_text
format_timestamp-IsAge difference local_date t ms set e =
    rw set (rw e (past_text-IsAge (local_date t) ms))

-- A timestamp after now, as that of a key that has not expired, is shown as a negative age, however far
-- ahead it is: minus the number of days begun, which is at least one.
format_timestamp_ahead :
    (difference : String → Difference) (local_date : String → String) (t : String) (ms : ℕ)
    → ((t == "") || (t == "0001-01-01T00:00:00Z")) ≡ false
    → difference t ≡ ahead ms
    → (k : ℕ) × (0 < k)
      × (86400000 * k < ms + 1 + 86400000)
      × (ms + 1 ≤ 86400000 * k)
      × (format_timestamp difference local_date t ≡ "-" +++ show k +++ "d ago")
unfolding format_timestamp difference_text
format_timestamp_ahead difference local_date t ms set e =
    (ms / 86400000 + 1, omega arith, omega arith, omega arith, rw set (rw e refl))

-- The unit for a size, by the powers of 1024.
unfoldable pub unit_text : ℕ → String
unit_text bytes =
    if ltb bytes 1024
    then "B"
    else if ltb bytes 1048576
    then "KB"
    else if ltb bytes 1073741824
    then "MB"
    else if ltb bytes 1099511627776
    then "GB"
    else if ltb bytes 1125899906842624
    then "TB"
    else "undefined"
