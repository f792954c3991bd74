-- ===== src/Tests/Commands.antt =====
-- Examples for the commands and the calls of the server.
use tsymbiote.System.{prefs, Pending, ask_hosts, Answer, receive}
use tsymbiote.System.Overlap.{brings_outputs, logs_during_request}
use tsymbiote.PingCommand.{filtered_edges}
use tsymbiote.PingCommand.Request.{IsColored, finish_ping-filtered_edges}
use tsymbiote.Prelude.{
  ℕ, ◌≤◌, ◌<◌, String, ◌≡◌, refl, ◌≢◌, ◌↔◌, true, false, not, ◌&&◌, ◌||◌, none, some, List, [], ◌∷◌,
  arith, ◌==◌, length, All, Option, if◌then◌else◌, false≢true, eq_iff,
}
use tsymbiote.Prelude.JsSet.{has}
use tsymbiote.Prelude.Dict.{Dict, get}
use tsymbiote.Api.{
  parsed, Fetched, response, Outcome, returned, thrown, Location, Request, HostResult, Body, array,
  PprofInput, profile, heap, goroutine,
}
use tsymbiote.Api.QueryDns.{
  QueryDnsInput, DnsBody, error_object, execute_query_dns, query_request, Throws,
  execute_query_dns-Throws_iff,
}
use tsymbiote.Peers.{is_online, has_edge, filter_online, online_node, find_node}
use tsymbiote.Ping.{Combination, PingResult, host_targets_map}
use tsymbiote.Ping.Combinations.{has_pair}
use tsymbiote.Ping.Grouping.{asks-host_targets_map}
use tsymbiote.Ping.Results.{asks}
use tsymbiote.Console.{result, online_selected_hosts}
use tsymbiote.HostCommands.{collect, fetch_logs}
use tsymbiote.HostCommands.Outputs.{get-collect}
use tsymbiote.HostCommands.Outputs as Outputs
use tsymbiote.Dialogs.{min_duration, pprof_input}
use tsymbiote.Dialogs.Duration.{parse_int}
use tsymbiote.Dialogs.Limits.{IsRefused, pprof_input_bounds, pprof_input-IsRefused_iff}
use tsymbiote.PingCommand.{ping_targets, finish_ping}
use tsymbiote.PingCommand.Request.{asks-ping_targets}
use tsymbiote.Tests.Data.{nodes, edges, hosts, console, app}

abbrev location : Location
location = record {
  prod = true;
  protocol = "https:";
  host = "tailnet.example";
  hostname = "tailnet.example";
}

abbrev query : QueryDnsInput
query = record { hosts = hosts; name = "example.com"; query_type = "A" }

abbrev refuse : Request QueryDnsInput → Fetched (DnsBody ℕ)
refuse r = response 400 (parsed (error_object "bad name"))

execute_query_dns-Throws_iff_example :
    ((m : String) × (execute_query_dns location refuse query ≡ thrown m))
    ↔ Throws hosts (refuse (query_request location query))
execute_query_dns-Throws_iff_example = execute_query_dns-Throws_iff location refuse query

not_blank : ◌≢◌ {A = String} "bad name" ""
not_blank p = false≢true ((eq_iff "bad name" "").1 p)

abbrev pairs : List Combination
pairs = record { host_id = "h1"; peer_id = "p1" } ∷ record { host_id = "h1"; peer_id = "h2" } ∷ []

asks-host_targets_map_example : asks (host_targets_map pairs) "h1" "h2" ≡ has_pair pairs "h1" "h2"
asks-host_targets_map_example = asks-host_targets_map pairs "h1" "h2"

asks-ping_targets_example : asks (ping_targets app) "h1" "p1" ≡ (
    (is_online nodes "h1" && has hosts "h1")
    && (has_edge edges "h1" "p1"
        && (is_online nodes "p1"
            && (has ("p1" ∷ []) "p1" || (has hosts "p1" && not ("p1" == "h1"))))))
asks-ping_targets_example = asks-ping_targets app "h1" "p1"

abbrev answers : List PingResult
answers =
    record {
      host = "h1";
      target = "p1";
      results = some (
          some
            (record { err = none; peer_relay = none; derp_region_id = some 3; peer_api_url = none })
          ∷ []);
    }
    ∷ []

abbrev asked : Dict (List String)
asked = ("h1", "p1" ∷ "h2" ∷ []) ∷ []

finish_ping-filtered_edges_example :
    let t = finish_ping asked (returned (array answers)) app in
    All (IsColored answers console.edge_colors) (filtered_edges t.selection t.console.edge_colors)
finish_ping-filtered_edges_example = finish_ping-filtered_edges asked answers app

abbrev statuses : List (HostResult ℕ)
statuses =
    record { host = "h1"; error = none; result = some 1 }
    ∷ record { host = "h2"; error = some "no answer"; result = none }
    ∷ []

get-collect_example : get (collect result [] statuses) "h2" ≡ Outputs.latest result statuses "h2"
get-collect_example = get-collect result statuses "h2"

abbrev status_api : List String → Outcome (Body (HostResult ℕ))
status_api hs = returned (array statuses)

some_online : 0 < length (online_selected_hosts app)
unfolding online_selected_hosts filter_online is_online online_node find_node
some_online = ground arith

abbrev decode : String → Option String
decode t = none

abbrev question : Pending
question = ask_hosts prefs ("h1" ∷ [])

abbrev reply : Answer ℕ question
reply = returned (array statuses)

logs_during_request_example :
    let t = receive decode question reply (fetch_logs true app) in
    (t.console.last_command ≡ "Logs")
    × (t.stream.is_streaming ≡ true)
    × (t.console.status_loading ≡ false)
    × (t.console.output_data ≡ (
        if brings_outputs ℕ question reply
        then (receive decode question reply app).console.output_data
        else (fetch_logs true app).console.output_data))
logs_during_request_example = logs_during_request decode question reply app some_online

abbrev heap_input : PprofInput
heap_input = record { hosts = hosts; type = heap; seconds = some 12 }

heap_is_accepted : pprof_input heap "12" hosts ≡ some heap_input
unfolding pprof_input parse_int
heap_is_accepted = refl

pprof_input_bounds_example :
    (heap_input.hosts ≡ hosts)
    × (heap_input.type ≡ heap)
    × ((heap ≡ goroutine) → heap_input.seconds ≡ none)
    × ((heap ≢ goroutine)
        → (n : ℕ) × (heap_input.seconds ≡ some n) × (min_duration heap ≤ n) × (n ≤ 300))
pprof_input_bounds_example = pprof_input_bounds heap "12" hosts heap_is_accepted

pprof_input-IsRefused_iff_example :
    (pprof_input profile "0" hosts ≡ none)
    ↔ ((profile ≢ goroutine) × IsRefused (min_duration profile) (parse_int "0"))
pprof_input-IsRefused_iff_example = pprof_input-IsRefused_iff profile "0" hosts
