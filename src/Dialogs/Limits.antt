-- ===== src/Dialogs/Limits.antt =====
-- Which requests the two dialogs can send, and how they end.
use tsymbiote.Prelude.{
  ℕ, ◌≤◌, ◌<◌, String, ◌+++◌, ◌≡◌, refl, ◌≢◌, ◌↔◌, ◌⊎◌, inl, inr, true, false, none, some, List,
  arith, ltb, Bool-cases,
}
use tsymbiote.Prelude.Decimal.{show}
use tsymbiote.Api.{Outcome, PprofType, profile, goroutine, PprofInput}
use tsymbiote.Console.{Console, App, alert, on_console, online_selected_hosts}
use tsymbiote.Api.QueryDns.{QueryDnsInput, DnsBody}
use tsymbiote.Dialogs.Duration.{Parsed, nan, int, parse_int}
use tsymbiote.Dialogs.{
  needs_duration, min_duration, out_of_range, seconds_of, pprof_input, is_blank, fetch_query_dns,
  fetch_pprof, change_pprof_type,
}

in_range :
    (least : ℕ) (p : Parsed)
    → out_of_range least p ≡ false
    → least ≤ 300
    → (least ≤ seconds_of p) × (seconds_of p ≤ 300)
unfolding out_of_range
in_range least nan h l = cc
in_range least (int true n) h l = ground arith
in_range least (int false n) h l = ground arith

min_duration_small : (t : PprofType) → min_duration t ≤ 300
unfolding min_duration
min_duration_small t = ground arith

needs_duration_iff : (t : PprofType) → (needs_duration t ≡ true) ↔ (t ≢ goroutine)
unfolding needs_duration
needs_duration_iff goroutine = (λ h. cc, λ h. absurd (h refl))
needs_duration_iff _ = (λ h. cc, λ h. refl)

-- A profile request is for the chosen type and hosts; it has a duration for every type but
-- goroutine, of at least the type's minimum and at most 300 seconds, and for goroutine none.
pub pprof_input_bounds :
    (t : PprofType) (duration : String) (hosts : List String) {input : PprofInput}
    → pprof_input t duration hosts ≡ some input
    → (input.hosts ≡ hosts)
      × (input.type ≡ t)
      × ((t ≡ goroutine) → input.seconds ≡ none)
      × ((t ≢ goroutine) → (n : ℕ) × (input.seconds ≡ some n) × (min_duration t ≤ n) × (n ≤ 300))
unfolding pprof_input
pprof_input_bounds t duration hosts {input} h = (
  ground arith,
  ground arith,
  λ e. ground arith,
  λ ne.
      let timed : needs_duration t ≡ true = (needs_duration_iff t).1 ne in
      let fits : out_of_range (min_duration t) (parse_int duration) ≡ false =
        ground (arith, timed, h) in
      let (low, high) =
        in_range (min_duration t) (parse_int duration) fits (min_duration_small t) in
      (seconds_of (parse_int duration), ground (arith, timed, fits, h), low, high),
)

-- Why a text is refused: it is no number, it is below the minimum, or it is above 300.
pub data IsRefused (least : ℕ) : Parsed → Type 0 where
  no_number : IsRefused least nan
  too_low : (n : ℕ) → n < least → IsRefused least (int false n)
  too_high : (n : ℕ) → 300 < n → IsRefused least (int false n)
  negative : (n : ℕ) → (0 < n) ⊎ (0 < least) → IsRefused least (int true n)

IsRefused-sound : (least : ℕ) (p : Parsed) → out_of_range least p ≡ true → IsRefused least p
unfolding out_of_range
IsRefused-sound least nan h = no_number
IsRefused-sound least (int true n) h = negative n (ground arith)
IsRefused-sound least (int false n) h = elim (Bool-cases (ltb n least)) [
  | inl e ↦ too_low n (ground arith)
  | inr e ↦ too_high n (ground arith)
]

IsRefused-complete : (least : ℕ) {p : Parsed} → IsRefused least p → out_of_range least p ≡ true
unfolding out_of_range
IsRefused-complete least no_number = refl
IsRefused-complete least (too_low n h) = ground arith
IsRefused-complete least (too_high n h) = ground arith
IsRefused-complete least (negative n h) = ground arith

-- A duration is refused exactly for a type that needs one and a text that parseInt reads as no
-- number, as one below the minimum, or as one above 300.
pub pprof_input-IsRefused_iff :
    (t : PprofType) (duration : String) (hosts : List String)
    → (pprof_input t duration hosts ≡ none)
      ↔ ((t ≢ goroutine) × IsRefused (min_duration t) (parse_int duration))
unfolding pprof_input
pprof_input-IsRefused_iff t duration hosts = (
  λ h. (
    (needs_duration_iff t).0 (ground (arith, h)),
    IsRefused-sound (min_duration t) (parse_int duration) (ground (arith, h)),
  ),
  λ (ne, r). ground (arith, (needs_duration_iff t).1 ne, IsRefused-complete (min_duration t) r),
)

-- A query without a name, or a profile with a refused duration, sends nothing, leaves the stream
-- running and changes nothing but the alerts.
pub refused_dialogs_only_alert :
    {T : Type 0} (s : App T) (api : QueryDnsInput → Outcome (DnsBody T))
    (sample : PprofInput → Outcome ℕ) (download : List String → List (String × Outcome T))
    → (is_blank s.console.dns_name ≡ true
        → (m : String) × (fetch_query_dns api s ≡ on_console (alert m) s))
      × (pprof_input s.console.pprof_type s.console.pprof_duration (online_selected_hosts s) ≡ none
          → (m : String) × (fetch_pprof sample download s ≡ on_console (alert m) s))
unfolding fetch_query_dns fetch_pprof
refused_dialogs_only_alert s api sample download = (
  λ h. ("Please enter a DNS name to query", rw h),
  λ h. (
    "Duration must be between " +++ show (min_duration s.console.pprof_type) +++ " and 300 seconds",
    rw h,
  ),
)

-- Changing the type in the dialog leaves a duration that is accepted, for each type but goroutine.
pub change_pprof_type_accepted :
    {T : Type 0} (t : PprofType) (c : Console T) (hosts : List String)
    → t ≢ goroutine
    → (n : ℕ) × (pprof_input t (change_pprof_type t c).pprof_duration hosts
        ≡ some (record { hosts = hosts; type = t; seconds = some n }))
unfolding change_pprof_type pprof_input parse_int
change_pprof_type_accepted goroutine c hosts ne = absurd (ne refl)
change_pprof_type_accepted profile c hosts ne = (30, refl)
change_pprof_type_accepted _ c hosts ne = (0, refl)
