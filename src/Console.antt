-- ===== src/Console.antt =====
-- The commands' part of the state of web-ui/src/App.tsx, and the app as a whole: the console of
-- outputs, the selection and the stream. `T` is the type of the results that are only displayed.
use tsymbiote.Prelude.{
  String, Bool, true, false, Option, none, some, List, [], ◌∷◌, ◌++◌, ◌==◌, if◌then◌else◌, head?,
}
use tsymbiote.Prelude.Dict.{Dict, keys}
use tsymbiote.Api.{PprofType, profile}
use tsymbiote.Peers.{filter_online}
use tsymbiote.Ping.{PingCell}
use tsymbiote.Selection.{Selection}
use tsymbiote.Stream.{Stream, cancel_streaming}

-- One value of `outputData`: `{ error }`, the result of a host, the cells of a ping, the parts of a
-- DNS answer (its error and whether it has a header), a profile, a text, `{ streaming: true }`.
pub data Output (T : Type 0) : Type 0 where
  failed : String → Output T
  result : Option T → Output T
  ping_cells : Dict PingCell → Output T
  dns : (error : Option String) → (header responses resolvers : Option T) → Output T
  pprof_file : (data_ : T) → (hostname : String) → PprofType → Output T
  pprof_error : String → PprofType → Output T
  text : String → Output T
  streaming : Output T

pub record Console (T : Type 0) : Type 0 where
  pub status_loading : Bool
  pub last_command : String
  pub output_data : Dict (Output T)
  pub selected_output_host : Option String
  pub status_panel_open : Bool
  pub edge_colors : Dict String
  pub show_query_dns_modal : Bool
  pub dns_name : String
  pub dns_query_type : String
  pub show_pprof_modal : Bool
  pub pprof_type : PprofType
  pub pprof_duration : String
  pub alerts : List String

pub record App (T : Type 0) : Type 0 where
  pub selection : Selection
  pub console : Console T
  pub stream : Stream

-- `if (firstHost) setSelectedOutputHost(firstHost)`
abbrev pub select_first : Option String → Option String → Option String
select_first none selected = selected
select_first (some h) selected = if h == "" then selected else some h

module _ {T : Type 0} where
  -- alert(message); the texts are kept, the first one first
  unfoldable pub alert : String → Console T → Console T
  alert message c = record c { alerts = c.alerts ++ message ∷ [] }

  -- closeQueryDNSModal
  unfoldable pub close_query_dns_modal : Console T → Console T
  close_query_dns_modal c = record c {
    show_query_dns_modal = false;
    dns_name = "";
    dns_query_type = "A";
  }

  -- closePprofModal
  unfoldable pub close_pprof_modal : Console T → Console T
  close_pprof_modal c = record c {
    show_pprof_modal = false;
    pprof_type = profile;
    pprof_duration = "30";
  }

  -- the end of a command: its results are shown, the panel is open, the first host is selected
  unfoldable pub show_results : Dict (Output T) → Console T → Console T
  show_results results c = record c {
    output_data = results;
    status_panel_open = true;
    selected_output_host = select_first (head? (keys results)) c.selected_output_host;
  }

  abbrev pub stop_loading : Console T → Console T
  stop_loading c = record c { status_loading = false }

  -- the beginning of a command: the stream is cancelled, loading is shown, the command is named
  unfoldable pub begin : String → App T → App T
  begin name s = record s {
    stream = cancel_streaming false s.stream;
    console = record s.console { status_loading = true; last_command = name };
  }

  abbrev pub on_console : (Console T → Console T) → App T → App T
  on_console f s = record s { console = f s.console }

  -- `filterOnline(selectedHosts)`
  unfoldable pub online_selected_hosts : App T → List String
  online_selected_hosts s = filter_online s.selection.nodes s.selection.selected_hosts
