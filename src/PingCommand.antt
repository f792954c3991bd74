-- ===== src/PingCommand.antt =====
-- `fetchPing` of web-ui/src/App.tsx, the settings of web-ui/src/components/GraphControls.tsx, and the
-- edges that the graph draws.
pub mod Request
use tsymbiote.Prelude.{
  ℕ, min, max, String, ◌+++◌, true, false, Option, none, some, List, [], map, ◌==◌, nat_eq,
  if◌then◌else◌, filter,
}
use tsymbiote.Prelude.Decimal.{show}
use tsymbiote.Prelude.JsSet.{JsSet, has, from_list}
use tsymbiote.Prelude.Dict.{Dict, get, spread}
use tsymbiote.Api.{PingInput, Outcome, returned, thrown, Body, array, other}
use tsymbiote.Connection.{filled}
use tsymbiote.Console.{
  Output, ping_cells, Console, App, show_results, stop_loading, begin, on_console,
  online_selected_hosts,
}
use tsymbiote.Dialogs.Duration.{Parsed, nan, int}
use tsymbiote.Peers.{Edge, filter_online}
use tsymbiote.Ping.{
  PingResult, PingCell, get_targeted_combinations, host_targets_map, ping_args, edge_id,
  collect_ping, new_edge_colors, fail_ping,
}
use tsymbiote.Selection.{Selection}

pub record PingSettings : Type 0 where
  pub ping_count : ℕ
  pub ping_type : String
  pub ping_delay : ℕ

-- the `useState` calls
abbrev pub initial_settings : PingSettings
initial_settings = record { ping_count = 5; ping_type = "disco"; ping_delay = 200 }

-- Math.min(20, Math.max(1, parseInt(value) || 1)), for a decimal text
unfoldable pub set_ping_count : Parsed → PingSettings → PingSettings
set_ping_count nan p = record p { ping_count = 1 }
set_ping_count (int true n) p = record p { ping_count = 1 }
set_ping_count (int false n) p = record p {
  ping_count = min 20 (max 1 (if nat_eq n 0 then 1 else n));
}

-- Math.min(2000, Math.max(0, parseInt(value) || 0))
unfoldable pub set_ping_delay : Parsed → PingSettings → PingSettings
set_ping_delay nan p = record p { ping_delay = 0 }
set_ping_delay (int true n) p = record p { ping_delay = 0 }
set_ping_delay (int false n) p = record p { ping_delay = min 2000 n }

module _ {T : Type 0} where
  -- `hostTargetsMap`
  unfoldable pub ping_targets : App T → Dict (List String)
  ping_targets s = host_targets_map (
      get_targeted_combinations (from_list (online_selected_hosts s))
        (from_list (filter_online s.selection.nodes s.selection.selected_targets))
        s.selection.edges)

  -- `pingInput`
  unfoldable pub ping_input : PingSettings → App T → PingInput
  ping_input p s = record {
    count = p.ping_count;
    ping_type = p.ping_type;
    delay = show p.ping_delay +++ "ms";
    args = ping_args (ping_targets s);
  }

  ping_outputs : Dict (Dict PingCell) → Dict (Output T)
  ping_outputs d = map (λ (h, cells). (h, ping_cells cells)) d

  show_ping : Dict (Dict PingCell) → Dict String → Console T → Console T
  show_ping cells colors c =
      stop_loading
        (show_results (ping_outputs cells) (record c { edge_colors = spread c.edge_colors colors }))

  -- What follows the `await`. The map is the one that the request was made from: the answer may come
  -- when the selection has changed.
  unfoldable pub finish_ping : Dict (List String) → Outcome (Body PingResult) → App T → App T
  unfolding show_ping ping_outputs
  finish_ping asked (returned (array rs)) s =
      on_console (show_ping (collect_ping [] rs) (new_edge_colors [] rs)) s
  finish_ping asked (returned other) s = on_console (show_ping [] []) s
  finish_ping asked (thrown m) s = on_console (show_ping (fail_ping m asked []) []) s

  unfoldable pub fetch_ping : PingSettings → (PingInput → Outcome (Body PingResult)) → App T → App T
  unfolding finish_ping
  fetch_ping p api s = finish_ping (ping_targets s) (api (ping_input p s)) (begin "Ping" s)

-- An edge as the graph gets it; `fill` is none where the default colour is kept.
pub record DrawnEdge : Type 0 where
  pub edge : Edge
  pub fill : Option String

abbrev pub truthy : Option String → Option String
truthy none = none
truthy (some t) = if t == "" then none else some t

-- `filteredEdges`
unfoldable pub filtered_edges : Selection → Dict String → List DrawnEdge
filtered_edges s colors =
    map (λ e. record { edge = e; fill = truthy (get colors (edge_id e.source e.target)) })
      (filter (λ e. has s.selected_hosts e.source) s.edges)
