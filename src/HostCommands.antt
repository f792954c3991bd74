-- ===== src/HostCommands.antt =====
-- The commands of web-ui/src/App.tsx that send one request for all selected online hosts and show
-- one result per host: status, prefs, drive shares, DNS config, serve config, app connector routes
-- and goroutines. `api` is the call of the service, which the client runs on the online hosts.
pub mod Outputs
use tsymbiote.Prelude.{
  String, Bool, true, Option, none, some, List, [], ◌∷◌, ◌==◌, nat_eq, if◌then◌else◌, length,
}
use tsymbiote.Prelude.Dict.{Dict, put}
use tsymbiote.Api.{Body, array, other, HostResult, Outcome, returned, thrown}
use tsymbiote.Console.{
  Output, failed, result, text, streaming, Console, App, alert, show_results, stop_loading, begin,
  on_console, online_selected_hosts,
}
use tsymbiote.Stream.{start_stream}
use tsymbiote.Stream.Format.{StreamType, logs, bus_events}

-- `hostResult.host || 'unknown'`
abbrev pub host_name : String → String
host_name h = if h == "" then "unknown" else h

-- `if (x.error)`
abbrev pub error_text : Option String → Option String
error_text none = none
error_text (some e) = if e == "" then none else some e

module _ {R T : Type 0} where
  -- the `forEach` over the answer; `show` is what a host without an error gets
  unfoldable pub collect :
      (Option R → Output T) → Dict (Output T) → List (HostResult R) → Dict (Output T)
  collect show d [] = d
  collect show d (r ∷ rs) =
      collect show
        (put d (host_name r.host)
          (elim (error_text r.error) [ some e ↦ failed e | none ↦ show r.result ]))
        rs

  -- `if (Array.isArray(data)) …`
  unfoldable pub collect_body : (Option R → Output T) → Body (HostResult R) → Dict (Output T)
  unfolding collect
  collect_body show (array rs) = collect show [] rs
  collect_body show other = []

  -- what follows the `await`, with the `catch` and the `finally`
  unfoldable pub finish : (Option R → Output T) → Outcome (Body (HostResult R)) → App T → App T
  unfolding collect_body
  finish show (returned body) s =
      on_console (λ c. stop_loading (show_results (collect_body show body) c)) s
  finish show (thrown message) s = on_console stop_loading s

  -- the whole command, where nothing happens between the request and its answer
  unfoldable pub host_command :
      String → (Option R → Output T) → (List String → Outcome (Body (HostResult R))) → App T → App T
  unfolding finish
  host_command name show api s =
      if nat_eq (length (online_selected_hosts s)) 0
      then on_console stop_loading (begin name s)
      else finish show (api (online_selected_hosts s)) (begin name s)

abbrev pub Api : Type 0 → Type 0
Api T = List String → Outcome (Body (HostResult T))

module _ {T : Type 0} where
  unfoldable pub fetch_status : Api T → App T → App T
  unfolding host_command
  fetch_status api = host_command "Status" result api

  unfoldable pub fetch_prefs : Api T → App T → App T
  unfolding host_command
  fetch_prefs api = host_command "Prefs" result api

  unfoldable pub fetch_drive_shares : Api T → App T → App T
  unfolding host_command
  fetch_drive_shares api = host_command "Drive Shares" result api

  unfoldable pub fetch_dns_config : Api T → App T → App T
  unfolding host_command
  fetch_dns_config api = host_command "DNS Config" result api

  unfoldable pub fetch_serve_config : Api T → App T → App T
  unfolding host_command
  fetch_serve_config api = host_command "Serve Config" result api

  unfoldable pub fetch_app_conn_routes : Api T → App T → App T
  unfolding host_command
  fetch_app_conn_routes api = host_command "AppConn Routes" result api

  -- A base64 text is decoded; `atob` gives none where it throws.
  unfoldable pub show_goroutines : (String → Option String) → Option String → Output T
  show_goroutines atob none = failed "No data returned"
  show_goroutines atob (some encoded) =
      if encoded == "" then failed "No data returned" else elim (atob encoded) [
        | some decoded ↦ text decoded
        | none ↦ failed "Failed to decode goroutines data"
      ]

  unfoldable pub fetch_goroutines :
      (String → Option String) → (List String → Outcome (Body (HostResult String))) → App T → App T
  unfolding host_command show_goroutines
  fetch_goroutines atob api = host_command "Goroutines" (show_goroutines atob) api

  streaming_status : List String → Dict (Output T) → Dict (Output T)
  streaming_status [] d = d
  streaming_status (h ∷ hs) d = streaming_status hs (put d h streaming)

  unfoldable pub stream_command : String → StreamType → List String → Bool → App T → App T
  unfolding streaming_status
  stream_command name kind [] creates s =
      on_console (alert "Please select at least one online host") s
  stream_command name kind (h ∷ hs) creates s = record s {
    console = record s.console {
      last_command = name;
      status_panel_open = true;
      selected_output_host = some h;
      output_data = streaming_status (h ∷ hs) [];
    };
    stream = start_stream creates kind (h ∷ hs) s.stream;
  }

  -- `creates` is false where the WebSocket constructor throws.
  unfoldable pub fetch_logs : Bool → App T → App T
  unfolding stream_command streaming_status
  fetch_logs creates s = stream_command "Logs" logs (online_selected_hosts s) creates s

  unfoldable pub fetch_bus_events : Bool → App T → App T
  unfolding stream_command streaming_status
  fetch_bus_events creates s =
      stream_command "Bus Events" bus_events (online_selected_hosts s) creates s
