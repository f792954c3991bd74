-- ===== src/Dialogs.antt =====
-- The two commands of web-ui/src/App.tsx with a dialog: the DNS query and the profile.
pub mod Duration
pub mod Limits
use tsymbiote.Prelude.{
  ℕ, String, ◌+++◌, Bool, true, false, ◌&&◌, ◌||◌, Option, none, some, List, [], ◌∷◌, ltb, nat_eq,
  if◌then◌else◌, length,
}
use Prim.Native.Char.{code}
use Prim.Native.String
use tsymbiote.Prelude.Decimal.{show}
use tsymbiote.Prelude.Dict.{Dict, put}
use tsymbiote.Api.{
  Outcome, returned, thrown, PprofType, profile, allocs, block, heap, mutex, threadcreate,
  goroutine, PprofInput, is_ok,
}
use tsymbiote.Api.QueryDns.{QueryDnsInput, QueryDnsResult, DnsBody, results, null, error_object}
use tsymbiote.Console.{
  Output, dns, pprof_file, pprof_error, Console, App, alert, close_query_dns_modal, show_results,
  stop_loading, begin, on_console, online_selected_hosts,
}
use tsymbiote.HostCommands.{host_name}
use Duration.{Parsed, nan, int, parse_int, is_space}

-- `!text.trim()`
unfoldable pub is_blank : String → Bool
unfolding is_space
is_blank String.[] = true
is_blank (String.◌∷◌ c s) = is_space (code c) && is_blank s

module _ {T : Type 0} where
  -- the `forEach` over the answer
  unfoldable pub collect_dns : Dict (Output T) → List (QueryDnsResult T) → Dict (Output T)
  collect_dns d [] = d
  collect_dns d (r ∷ rs) =
      collect_dns (put d (host_name r.host) (dns r.error r.header r.responses r.resolvers)) rs

  dns_outputs : DnsBody T → Dict (Output T)
  unfolding collect_dns
  dns_outputs (results rs) = collect_dns [] rs
  dns_outputs _ = []

  -- what follows the `await` of the query
  unfoldable pub finish_query_dns : Outcome (DnsBody T) → App T → App T
  unfolding dns_outputs
  finish_query_dns (returned body) s =
      on_console (λ c. stop_loading (close_query_dns_modal (show_results (dns_outputs body) c))) s
  finish_query_dns (thrown m) s = on_console (λ c. stop_loading (alert ("Error: " +++ m) c)) s

  unfoldable pub fetch_query_dns : (QueryDnsInput → Outcome (DnsBody T)) → App T → App T
  unfolding is_blank finish_query_dns
  fetch_query_dns api s =
      if is_blank s.console.dns_name
      then on_console (alert "Please enter a DNS name to query") s
      else if nat_eq (length (online_selected_hosts s)) 0
      then on_console (λ c. alert "No online hosts selected" (stop_loading c)) (begin "Query DNS" s)
      else finish_query_dns
          (api (record {
            hosts = online_selected_hosts s;
            name = s.console.dns_name;
            query_type = s.console.dns_query_type;
          }))
          (begin "Query DNS" s)

-- `needsDuration`, `allowsZero`, `minDuration`
unfoldable pub needs_duration : PprofType → Bool
needs_duration goroutine = false
needs_duration _ = true

unfoldable pub allows_zero : PprofType → Bool
allows_zero profile = false
allows_zero goroutine = false
allows_zero _ = true

unfoldable pub min_duration : PprofType → ℕ
unfolding allows_zero
min_duration t = if allows_zero t then 0 else 1

-- isNaN(duration) || duration < minDuration || duration > 300
unfoldable pub out_of_range : ℕ → Parsed → Bool
out_of_range least nan = true
out_of_range least (int true n) = ltb 0 n || ltb 0 least
out_of_range least (int false n) = ltb n least || ltb 300 n

abbrev pub duration_message : PprofType → String
unfolding min_duration
duration_message t = "Duration must be between " +++ show (min_duration t) +++ " and 300 seconds"

-- The number that JSON has for it, where it is in range: -0 is written 0.
abbrev pub seconds_of : Parsed → ℕ
seconds_of nan = 0
seconds_of (int true n) = 0
seconds_of (int false n) = n

-- The input of the request, or none where the duration is refused.
unfoldable pub pprof_input : PprofType → String → List String → Option PprofInput
unfolding needs_duration min_duration out_of_range
pprof_input t duration hosts =
    if needs_duration t && out_of_range (min_duration t) (parse_int duration)
    then none
    else some (record {
      hosts = hosts;
      type = t;
      seconds = if needs_duration t then some (seconds_of (parse_int duration)) else none;
    })

module _ {T : Type 0} where
  pprof_output : PprofType → String → Outcome T → Output T
  pprof_output t host (returned file) = pprof_file file host t
  pprof_output t host (thrown m) = pprof_error m t

  -- The files of the hosts, in the order in which the downloads end.
  unfoldable pub collect_files :
      PprofType → Dict (Output T) → List (String × Outcome T) → Dict (Output T)
  unfolding pprof_output
  collect_files t d [] = d
  collect_files t d ((host, o) ∷ files) = collect_files t (put d host (pprof_output t host o)) files

  -- what follows the `await` of the sampling; the service has thrown for every bad status already
  unfoldable pub finish_pprof :
      Outcome ℕ
      → (List String → List (String × Outcome T))
      → PprofType
      → List String
      → App T
      → App T
  unfolding collect_files
  finish_pprof (thrown m) download t hosts s =
      on_console (λ c. stop_loading (alert ("Error: " +++ m) c)) s
  finish_pprof (returned status) download t hosts s =
      if is_ok status
      then on_console
          (λ c. stop_loading (record (show_results (collect_files t [] (download hosts)) c) {
            show_pprof_modal = false;
          }))
          s
      else on_console (λ c. stop_loading (alert ("Error: HTTP " +++ show status) c)) s

  send_pprof :
      (PprofInput → Outcome ℕ)
      → (List String → List (String × Outcome T))
      → App T
      → Option PprofInput
      → App T
  send_pprof sample download s none = on_console (alert (duration_message s.console.pprof_type)) s
  send_pprof sample download s (some input) =
      if nat_eq (length (online_selected_hosts s)) 0
      then on_console (λ c. alert "No online hosts selected" (stop_loading c)) (begin "Pprof" s)
      else finish_pprof (sample input) download s.console.pprof_type (online_selected_hosts s)
          (begin "Pprof" s)

  unfoldable pub fetch_pprof :
      (PprofInput → Outcome ℕ) → (List String → List (String × Outcome T)) → App T → App T
  unfolding send_pprof pprof_input finish_pprof
  fetch_pprof sample download s =
      send_pprof sample download s
        (pprof_input s.console.pprof_type s.console.pprof_duration (online_selected_hosts s))

-- the `onChange` of the type's select
unfoldable pub change_pprof_type : {T : Type 0} → PprofType → Console T → Console T
unfolding allows_zero
change_pprof_type t c = record c {
  pprof_type = t;
  pprof_duration = if allows_zero t then "0" else elim t [ profile ↦ "30" | _ ↦ c.pprof_duration ];
}
