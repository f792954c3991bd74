-- ===== src/System/Overlap.antt =====
-- Two commands at a time: a stream may be started while a request is under way, since its buttons
-- are disabled by `isStreaming` and not by `statusLoading`.
use tsymbiote.Prelude.{
  ℕ, ◌<◌, String, ◌≡◌, refl, ◌∙◌, inl, inr, Bool, true, false, Option, List, arith, length,
  if◌then◌else◌, Bool-cases,
}
use tsymbiote.Prelude.Dict.{Dict}
use tsymbiote.Api.{Body, HostResult, Outcome, returned, thrown, PprofType, array, other, is_ok}
use tsymbiote.Api.QueryDns.{DnsBody}
use tsymbiote.Ping.{PingResult}
use tsymbiote.PingCommand.{finish_ping}
use tsymbiote.Console.{
  Output, result, App, show_results, alert, close_query_dns_modal, online_selected_hosts,
}
use tsymbiote.Stream.{start_stream}
use tsymbiote.HostCommands.{finish, show_goroutines, fetch_logs}
use tsymbiote.Dialogs.{finish_query_dns, finish_pprof}
use tsymbiote.System.{
  status, prefs, drive_shares, dns_config, serve_config, app_conn_routes, goroutines, Pending,
  ask_hosts, ask_ping, ask_dns, ask_pprof, Answer, receive,
}
use tsymbiote.System.Moves.{receive-IsEnded}

abbrev arrived : {A : Type 0} → Outcome A → Bool
arrived (returned a) = true
arrived (thrown m) = false

abbrev sampled : Outcome ℕ → Bool
sampled (returned code) = is_ok code
sampled (thrown m) = false

-- Whether the outputs are replaced when the answer comes: a ping shows its errors as outputs, and
-- every other request that fails leaves the outputs.
unfoldable pub brings_outputs : (T : Type 0) (r : Pending) → Answer T r → Bool
brings_outputs T (ask_hosts status hosts) a = arrived a
brings_outputs T (ask_hosts prefs hosts) a = arrived a
brings_outputs T (ask_hosts drive_shares hosts) a = arrived a
brings_outputs T (ask_hosts dns_config hosts) a = arrived a
brings_outputs T (ask_hosts serve_config hosts) a = arrived a
brings_outputs T (ask_hosts app_conn_routes hosts) a = arrived a
brings_outputs T (ask_hosts goroutines hosts) a = arrived a
brings_outputs T (ask_ping asked input) a = true
brings_outputs T (ask_dns input) a = arrived a
brings_outputs T (ask_pprof t hosts input) (a, download) = sampled a

module _ {T : Type 0} where
  finish-outputs :
      {R : Type 0} (f : Option R → Output T) (o : Outcome (Body (HostResult R))) (s u : App T)
      → (finish f o s).console.output_data
        ≡ (if arrived o then (finish f o u).console.output_data else s.console.output_data)
  unfolding finish show_results
  finish-outputs f (returned body) s u = refl
  finish-outputs f (thrown m) s u = refl

  ping-outputs :
      (asked : Dict (List String)) (o : Outcome (Body PingResult)) (s u : App T)
      → (finish_ping asked o s).console.output_data ≡ (finish_ping asked o u).console.output_data
  unfolding finish_ping show_results
  ping-outputs asked (returned (array rs)) s u = refl
  ping-outputs asked (returned other) s u = refl
  ping-outputs asked (thrown m) s u = refl

  query_dns-outputs :
      (o : Outcome (DnsBody T)) (s u : App T)
      → (finish_query_dns o s).console.output_data
        ≡ (if arrived o then (finish_query_dns o u).console.output_data else s.console.output_data)
  unfolding finish_query_dns show_results close_query_dns_modal alert
  query_dns-outputs (returned body) s u = refl
  query_dns-outputs (thrown m) s u = refl

  pprof-outputs :
      (o : Outcome ℕ) (download : List String → List (String × Outcome T)) (t : PprofType)
      (hosts : List String) (s u : App T)
      → (finish_pprof o download t hosts s).console.output_data ≡ (
          if sampled o
          then (finish_pprof o download t hosts u).console.output_data
          else s.console.output_data)
  unfolding finish_pprof show_results alert
  pprof-outputs (thrown m) download t hosts s u = refl
  pprof-outputs (returned code) download t hosts s u = elim (Bool-cases (is_ok code)) [
    | inl e ↦ rw e refl
    | inr e ↦ rw e refl
  ]

  -- The outputs that an answer brings do not depend on the state in which it finds the app.
  receive-outputs :
      (atob : String → Option String) (r : Pending) (a : Answer T r) (s u : App T)
      → (receive atob r a s).console.output_data ≡ (
          if brings_outputs T r a
          then (receive atob r a u).console.output_data
          else s.console.output_data)
  unfolding receive brings_outputs
  receive-outputs atob (ask_hosts status hosts) a s u = finish-outputs result a s u
  receive-outputs atob (ask_hosts prefs hosts) a s u = finish-outputs result a s u
  receive-outputs atob (ask_hosts drive_shares hosts) a s u = finish-outputs result a s u
  receive-outputs atob (ask_hosts dns_config hosts) a s u = finish-outputs result a s u
  receive-outputs atob (ask_hosts serve_config hosts) a s u = finish-outputs result a s u
  receive-outputs atob (ask_hosts app_conn_routes hosts) a s u = finish-outputs result a s u
  receive-outputs atob (ask_hosts goroutines hosts) a s u =
      finish-outputs (show_goroutines atob) a s u
  receive-outputs atob (ask_ping asked input) a s u = ping-outputs asked a s u
  receive-outputs atob (ask_dns input) a s u = query_dns-outputs a s u
  receive-outputs atob (ask_pprof t hosts input) (a, download) s u =
      pprof-outputs a download t hosts s u

  fetch_logs-started :
      (s : App T)
      → 0 < length (online_selected_hosts s)
      → ((fetch_logs true s).console.last_command ≡ "Logs")
        × ((fetch_logs true s).stream.is_streaming ≡ true)
  unfolding fetch_logs start_stream online_selected_hosts
  fetch_logs-started s some_online = ground arith

  -- The user starts the logs on some online host while a request of any command is under way, and then
  -- its answer comes, whatever it is: the last command stays "Logs" and the stream goes on, and the app
  -- is not loading; but an answer that brings outputs, which is that of a ping or one that does not fail,
  -- replaces those of the logs by the outputs that it would have brought without them.
  pub logs_during_request :
      (atob : String → Option String) (r : Pending) (a : Answer T r) (s : App T)
      → 0 < length (online_selected_hosts s)
      → let t = receive atob r a (fetch_logs true s) in
        (t.console.last_command ≡ "Logs")
        × (t.stream.is_streaming ≡ true)
        × (t.console.status_loading ≡ false)
        × (t.console.output_data ≡ (
            if brings_outputs T r a
            then (receive atob r a s).console.output_data
            else (fetch_logs true s).console.output_data))
  logs_during_request atob r a s some_online =
      let (name, on) = fetch_logs-started s some_online in
      let ended = receive-IsEnded atob r a (fetch_logs true s) in
      (
        ended.name ∙ name,
        rw (ended.stream) on,
        ended.stopped,
        receive-outputs atob r a (fetch_logs true s) s,
      )
