-- ===== src/Tests/Files.antt =====
-- Ages, sizes and the link of a profile.
use tsymbiote.Prelude.{ℕ, ◌≡◌, refl, String, some, false}
use tsymbiote.Prelude.Decimal.{show}
use tsymbiote.Formats.{Difference, past, ahead, format_timestamp}
use tsymbiote.Formats.Ages.{IsAge, format_timestamp-IsAge}
use tsymbiote.Viewer.{ViewerData, mount, show_data}
use tsymbiote.Viewer.Links.{mounted, shown, IsLinked, Reach-IsLinked}

abbrev two_hours_ago : String → Difference
two_hours_ago t = past 7260000

abbrev in_a_month : String → Difference
in_a_month t = ahead 2591999999

abbrev date_text : String → String
date_text t = t

format_timestamp-IsAge_example :
    IsAge "2026-01-02T03:04:05Z" 7260000
      (format_timestamp two_hours_ago date_text "2026-01-02T03:04:05Z")
format_timestamp-IsAge_example =
    format_timestamp-IsAge two_hours_ago date_text "2026-01-02T03:04:05Z" 7260000 refl refl

expiry_is_negative : format_timestamp in_a_month date_text "2026-12-31T00:00:00Z" ≡ "-30d ago"
unfolding format_timestamp show
expiry_is_negative = refl

abbrev five : ℕ → ℕ
five b = 5

abbrev scaled_text : ℕ → ℕ → String
scaled_text b i = "1.00"

abbrev profile_of : ℕ → ViewerData ℕ
profile_of f = record { has_error = false; file = some f }

Reach-IsLinked_example : IsLinked (show_data (profile_of 8) (mount (profile_of 7)))
Reach-IsLinked_example = Reach-IsLinked (shown (profile_of 8) (mounted (profile_of 7)))
