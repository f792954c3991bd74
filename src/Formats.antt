-- ===== src/Formats.antt =====
-- formatBytes and formatTimestamp of web-ui/src/components/UIComponents.tsx. What they take from
-- JavaScript is an argument: the logarithm, toFixed, the reading of a date and the clock.
pub mod Ages
use tsymbiote.Prelude.{
  ℕ, zero, suc, ◌+◌, ◌-◌, ◌/◌, String, ◌+++◌, Bool, true, false, ◌||◌, Option, none, some, List, [],
  ◌∷◌, ◌==◌, ltb, nat_eq, if◌then◌else◌, get_elem?,
}
use tsymbiote.Prelude.Decimal.{show}

abbrev pub sizes : List String
sizes = "B" ∷ "KB" ∷ "MB" ∷ "GB" ∷ "TB" ∷ []

-- `${…}` of an entry that may be missing
abbrev pub entry_text : Option String → String
entry_text none = "undefined"
entry_text (some t) = t

-- `magnitude` is Math.floor(Math.log(bytes) / Math.log(1024)), and `scaled bytes i` is
-- (bytes / Math.pow(1024, i)).toFixed(2).
unfoldable pub format_bytes : (ℕ → ℕ) → (ℕ → ℕ → String) → ℕ → String
format_bytes magnitude scaled bytes =
    if nat_eq bytes 0
    then "0 B"
    else scaled bytes (magnitude bytes) +++ " " +++ entry_text (get_elem? sizes (magnitude bytes))

-- now.getTime() - date.getTime(), in milliseconds; `invalid` is NaN, and `ahead n` is -(n + 1)
pub data Difference : Type 0 where
  invalid : Difference
  past : ℕ → Difference
  ahead : ℕ → Difference

-- days < 7, with `date` for toLocaleDateString()
unfoldable pub past_text : String → ℕ → String
past_text date ms =
    let minutes = show (ms / 60000) +++ "m ago" in
    let hours = show (ms / 3600000) +++ "h ago" in
    let days = show (ms / 86400000) +++ "d ago" in
    if nat_eq (ms / 86400000) 0
    then (if nat_eq (ms / 3600000) 0 then minutes else hours)
    else if ltb (ms / 86400000) 7
    then days
    else date

-- Math.floor of the negative quotient -(ms + 1) / 86400000 is -(ms / 86400000 + 1), which is not 0 and
-- less than 7.
difference_text : String → Difference → String
unfolding past_text
difference_text date invalid = date
difference_text date (past ms) = past_text date ms
difference_text date (ahead ms) = "-" +++ show (ms / 86400000 + 1) +++ "d ago"

unfoldable pub format_timestamp : (String → Difference) → (String → String) → String → String
unfolding difference_text
format_timestamp difference local_date timestamp =
    if (timestamp == "") || (timestamp == "0001-01-01T00:00:00Z")
    then "Never"
    else difference_text (local_date timestamp) (difference timestamp)
