-- ===== src/Tests/Whole.antt =====
-- The app from its start over the peer map to a command.
use tsymbiote.Prelude.{◌≡◌, refl, String, some, none, true, false, [], ◌∷◌, ◌++◌, ◌+++◌, arith}
use tsymbiote.Api.{returned, thrown}
use tsymbiote.Loading.{Surroundings, PeermapResponse, PeerNode}
use tsymbiote.System.{
  status, prefs, command_name, Pending, ask_hosts, System, on_app, receive, start_command,
  initial_system, load_data,
}
use tsymbiote.System.Events.{
  Reach, begun, next, loads, command, command_enabled, ping_enabled, dns_enabled, pprof_enabled,
}
use tsymbiote.System.Invariant.{IsSound}
use tsymbiote.System.Sound.{Reach-IsSound}
use tsymbiote.System.Requests.{pending_disables, receive_ends}
use tsymbiote.Selection.{settle_all, drop_unreachable, deselect_offline, select_default_targets}
use tsymbiote.Prelude.JsSet.{from_list}
use tsymbiote.Console.{online_selected_hosts}
use tsymbiote.Peers.{target_nodes, filter_online, is_online, online_node, find_node}
use mathlib.Core.List.{Memᴰ}
use tsymbiote.Controls.{button, Browser, Page, pressed, initial_page, on_system}
use tsymbiote.Controls.WholePage.{controls}
use tsymbiote.Controls.PanelFrame.{panel_title}
use tsymbiote.Controls.Reached.{Use-Reach}
use tsymbiote.Controls.Commands.{has_button}
use tsymbiote.Tests.Data.{codec}

abbrev pub surroundings : Surroundings
surroundings = record { stringify = λ r. ""; missing_data = ""; redact_node_titles = false }

abbrev pub peer : String → PeerNode
peer i = record {
  id = i;
  label = i;
  node_data = some (record { online = some true; exit_node = none; exit_node_option = none });
}

abbrev pub two_hosts : PeermapResponse
two_hosts = record {
  edges = some [];
  hosts = some ("h1" ∷ "h2" ∷ []);
  nodes = some (peer "h1" ∷ peer "h2" ∷ []);
}

abbrev pub loaded : System Unit
loaded = load_data surroundings (returned (some two_hosts)) (initial_system 900)

abbrev asking : System Unit
asking = start_command status loaded

loaded_is_enabled : command_enabled loaded ≡ true
unfolding command_enabled load_data initial_system settle_all drop_unreachable from_list
    deselect_offline select_default_targets target_nodes
loaded_is_enabled = refl

loaded_is_reached : Reach surroundings codec 900 loaded
unfolding initial_system
loaded_is_reached =
    next (begun 900 (ground arith) (ground arith)) (loads (returned (some two_hosts)) refl)

asking_is_reached : Reach surroundings codec 900 asking
asking_is_reached =
    next loaded_is_reached (command status (λ e. absurd (ground (arith, e))) loaded_is_enabled)

abbrev question : Pending
question = ask_hosts status ("h1" ∷ "h2" ∷ [])

question_is_asked : asking.requests ≡ [] ++ question ∷ []
unfolding start_command load_data initial_system settle_all drop_unreachable from_list
    deselect_offline select_default_targets target_nodes online_selected_hosts filter_online
    is_online online_node find_node
question_is_asked = refl

Reach-IsSound_example : IsSound 900 asking
Reach-IsSound_example = Reach-IsSound surroundings codec 900 asking_is_reached

pending_disables_example :
    (command_enabled asking ≡ false)
    × (ping_enabled asking ≡ false)
    × (dns_enabled asking ≡ false)
    × (pprof_enabled asking ≡ false)
pending_disables_example =
    pending_disables surroundings codec 900 asking_is_reached
      (λ e. absurd (ground (arith, e, question_is_asked)))

receive_ends_example :
    let t = record (on_app (receive codec.atob question (thrown "HTTP 500")) asking) {
      requests = [];
    } in
    (t.requests ≡ []) × (t.ui.app.console.status_loading ≡ false)
receive_ends_example =
    receive_ends surroundings codec 900 [] question [] (thrown "HTTP 500") asking_is_reached
      question_is_asked

abbrev browser : Browser
browser = record { redact_node_titles = false; lower = λ t. t; creates_socket = true }

abbrev page : Page Unit
page = initial_page loaded

has_button_example :
    Memᴰ
      (button (command_name prefs) true (on_system (start_command prefs)))
      (controls browser 900 page)
    × (panel_title (on_system (start_command prefs) page)
        ≡ "Command Outputs- " +++ command_name prefs)
has_button_example =
    has_button browser 900 page prefs (λ e. absurd (ground (arith, e))) loaded_is_enabled

Use-Reach_example : Reach surroundings codec 900 (start_command prefs loaded)
unfolding command_name
Use-Reach_example =
    Use-Reach surroundings codec 900 browser 900 (ground arith) (ground arith) loaded_is_reached
      has_button_example.0 (pressed "Prefs" refl)
