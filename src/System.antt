-- ===== src/System.antt =====
-- web-ui/src/App.tsx as a whole, with the controls of SidebarPanel.tsx, Modal.tsx, GraphControls.tsx
-- and CommandOutputsPanel.tsx that call it. A command is two steps: the handler up to the `await`,
-- and what follows it when the answer comes, which other events may precede.
pub mod Events
pub mod Moves
pub mod Invariant
pub mod Started
pub mod Sound
pub mod Requests
pub mod Overlap
use tsymbiote.Prelude.{
  ℕ, String, Bool, true, false, not, Option, none, some, List, [], ◌∷◌, ◌++◌, nat_eq, if◌then◌else◌,
  length,
}
use tsymbiote.Prelude.Dict.{Dict}
use tsymbiote.Api.{Body, HostResult, Outcome, PprofType, PprofInput, PingInput, profile, goroutine}
use tsymbiote.Api.QueryDns.{DnsBody, QueryDnsInput}
use tsymbiote.Ping.{PingResult}
use tsymbiote.PingCommand.{PingSettings, initial_settings, ping_targets, ping_input, finish_ping}
use tsymbiote.Panel.{initial_panel}
use tsymbiote.Constants.{default_layout}
use tsymbiote.Selection.{Selection, initial_selection}
use tsymbiote.Stream.{initial_stream}
use tsymbiote.Loading.{Loading, Surroundings, PeermapResponse, fetch_data}
use tsymbiote.Console.{
  Output, result, Console, App, alert, stop_loading, close_pprof_modal, begin, on_console,
  online_selected_hosts,
}
use tsymbiote.HostCommands.{finish, show_goroutines}
use tsymbiote.Dialogs.{is_blank, finish_query_dns, finish_pprof, pprof_input, duration_message}
use tsymbiote.Keyboard.{Ui}

-- A command that shows one result per host.
pub data Command : Type 0 where
  status prefs drive_shares dns_config serve_config app_conn_routes goroutines : Command

-- setLastCommand
unfoldable pub command_name : Command → String
command_name status = "Status"
command_name prefs = "Prefs"
command_name drive_shares = "Drive Shares"
command_name dns_config = "DNS Config"
command_name serve_config = "Serve Config"
command_name app_conn_routes = "AppConn Routes"
command_name goroutines = "Goroutines"

-- A request whose answer has not come, with what its handler closes over.
pub data Pending : Type 0 where
  ask_hosts : Command → (hosts : List String) → Pending
  ask_ping : (asked : Dict (List String)) → PingInput → Pending
  ask_dns : QueryDnsInput → Pending
  ask_pprof : PprofType → (hosts : List String) → PprofInput → Pending

-- What an answer to it is: for a profile, the one to the sampling and the files of the hosts.
abbrev pub Answer : Type 0 → Pending → Type 0
Answer T (ask_hosts goroutines hosts) = Outcome (Body (HostResult String))
Answer T (ask_hosts _ hosts) = Outcome (Body (HostResult T))
Answer T (ask_ping asked input) = Outcome (Body PingResult)
Answer T (ask_dns input) = Outcome (DnsBody T)
Answer T (ask_pprof t hosts input) = Outcome ℕ × (List String → List (String × Outcome T))

-- `load` has the flag and the error of the first effect.
pub record System (T : Type 0) : Type 0 where
  pub ui : Ui T
  pub requests : List Pending
  pub settings : PingSettings
  pub sidebar_open : Bool
  pub load : Bool
  pub load_error : Option String

module _ {T : Type 0} where
  abbrev pub on_app : (App T → App T) → System T → System T
  on_app f s = record s { ui = record s.ui { app = f s.ui.app } }

  -- what follows the `await`
  unfoldable pub receive : (String → Option String) → (r : Pending) → Answer T r → App T → App T
  unfolding finish finish_ping finish_query_dns finish_pprof
  receive atob (ask_hosts status hosts) a s = finish result a s
  receive atob (ask_hosts prefs hosts) a s = finish result a s
  receive atob (ask_hosts drive_shares hosts) a s = finish result a s
  receive atob (ask_hosts dns_config hosts) a s = finish result a s
  receive atob (ask_hosts serve_config hosts) a s = finish result a s
  receive atob (ask_hosts app_conn_routes hosts) a s = finish result a s
  receive atob (ask_hosts goroutines hosts) a s = finish (show_goroutines atob) a s
  receive atob (ask_ping asked input) a s = finish_ping asked a s
  receive atob (ask_dns input) a s = finish_query_dns a s
  receive atob (ask_pprof t hosts input) (a, download) s = finish_pprof a download t hosts s

  -- A handler from its first `set` call to the `await`, or to its early return if `online` is
  -- false, which `refuse` stands for.
  unfoldable pub send :
      String → Pending → (Console T → Console T) → (online : Bool) → System T → System T
  unfolding begin
  send name r refuse true s = record (on_app (begin name) s) { requests = s.requests ++ r ∷ [] }
  send name r refuse false s = on_app (λ a. on_console refuse (begin name a)) s

  abbrev pub some_online : System T → Bool
  some_online s = not (nat_eq (length (online_selected_hosts s.ui.app)) 0)

  -- fetchStatus and the other commands of its kind
  unfoldable pub start_command : Command → System T → System T
  unfolding send command_name
  start_command c s =
      send (command_name c) (ask_hosts c (online_selected_hosts s.ui.app)) stop_loading
        (some_online s) s

  -- fetchPing
  unfoldable pub start_ping : System T → System T
  unfolding send
  start_ping s =
      send "Ping" (ask_ping (ping_targets s.ui.app) (ping_input s.settings s.ui.app)) stop_loading
        true s

  abbrev pub no_online : Console T → Console T
  no_online c = alert "No online hosts selected" (stop_loading c)

  abbrev pub dns_input : System T → QueryDnsInput
  dns_input s = record {
    hosts = online_selected_hosts s.ui.app;
    name = s.ui.app.console.dns_name;
    query_type = s.ui.app.console.dns_query_type;
  }

  -- fetchQueryDNS
  unfoldable pub start_query_dns : System T → System T
  unfolding send
  start_query_dns s =
      if is_blank s.ui.app.console.dns_name
      then on_app (on_console (alert "Please enter a DNS name to query")) s
      else send "Query DNS" (ask_dns (dns_input s)) no_online (some_online s) s

  unfoldable pub start_pprof : Option PprofInput → System T → System T
  unfolding send
  start_pprof none s = on_app (λ a. on_console (alert (duration_message a.console.pprof_type)) a) s
  start_pprof (some input) s =
      send "Pprof" (ask_pprof s.ui.app.console.pprof_type (online_selected_hosts s.ui.app) input)
        no_online (some_online s) s

  -- what the dialog's submission runs: fetchGoroutines and closePprofModal, or fetchPprof
  unfoldable pub submit_as : PprofType → System T → System T
  unfolding start_pprof start_command close_pprof_modal
  submit_as goroutine s = on_app (on_console close_pprof_modal) (start_command goroutines s)
  submit_as _ s =
      start_pprof
        (pprof_input s.ui.app.console.pprof_type s.ui.app.console.pprof_duration
          (online_selected_hosts s.ui.app))
        s

  abbrev pub submit_pprof : System T → System T
  submit_pprof s = submit_as s.ui.app.console.pprof_type s

  -- the end of fetchData
  unfoldable pub load_data : Surroundings → Outcome (Option PeermapResponse) → System T → System T
  unfolding fetch_data
  load_data w answer s =
      let l =
        fetch_data w answer
          (record { selection = s.ui.app.selection; loading = s.load; error = s.load_error }) in
      record (on_app (λ a. record a { selection = l.selection }) s) {
        load = l.loading;
        load_error = l.error;
      }

  -- the `useState` calls, in a window of the given height
  abbrev pub initial_console : Console T
  initial_console = record {
    status_loading = false;
    last_command = "";
    output_data = [];
    selected_output_host = none;
    status_panel_open = true;
    edge_colors = [];
    show_query_dns_modal = false;
    dns_name = "";
    dns_query_type = "A";
    show_pprof_modal = false;
    pprof_type = profile;
    pprof_duration = "30";
    alerts = [];
  }

  unfoldable pub initial_system : ℕ → System T
  unfolding initial_panel
  initial_system inner_height = record {
    ui = record {
      app = record {
        selection = initial_selection;
        console = initial_console;
        stream = initial_stream;
      };
      panel = initial_panel inner_height;
      layout_type = default_layout;
      graph_key = 0;
      placed = [];
      has_graph = false;
      camera = [];
      context_menu_open = false;
    };
    requests = [];
    settings = initial_settings;
    sidebar_open = true;
    load = true;
    load_error = none;
  }
