-- ===== src/Tests/Graph.antt =====
-- Examples for the panel, the peers, the selection and the loading of the peer map.
use tsymbiote.Prelude.{
  String, ◌≡◌, refl, ◌↔◌, true, false, Option, none, some, [], ◌∷◌, map, arith, eq_iff,
}
use tsymbiote.Prelude.JsSet.{has, IsUnique, Subset}
use tsymbiote.Connection.{PingEntry, get_connection_type, get_edge_color_from_result}
use tsymbiote.Connection.Kinds.{connection_legend, legend_names, edge_colors_are_kinds}
use tsymbiote.Prelude.Dict.{get}
use tsymbiote.Panel.{Panel, initial_panel, toggle_minimize_panel}
use tsymbiote.Panel.Heights.{opened, next, toggled, InRange, Reach-InRange}
use tsymbiote.Peers.{
  is_online, reachable_targets, reachable_targets_base, target_nodes, has_edge, online_node,
  find_node,
}
use tsymbiote.Peers.Reachability.{IsReachable, reachable_targets_iff}
use tsymbiote.Selection.{reachable, toggle_hide_offline, toggle_target, toggle_all_targets}
use tsymbiote.Sidebar.{targets_label, targets_enabled, targets_label_iff}
use tsymbiote.Selection.Consistency.{IsConsistent, target, Step-IsConsistent}
use tsymbiote.Selection.Defaults.{toggle_hide_offline-selects_reachable}
use tsymbiote.Selection.ToggleAll.{toggle_all_targets_cases}
use tsymbiote.Api.{Outcome, returned}
use tsymbiote.Loading.{PeerNode, PeermapResponse, Surroundings}
use tsymbiote.Tests.Data.{nodes, edges, hosts, selection}

Reach-InRange_example : InRange 900 (toggle_minimize_panel 800 (initial_panel 900))
Reach-InRange_example =
    Reach-InRange 900
      (next 800 (ground arith) (ground arith) (opened 900 (ground arith) (ground arith)) toggled)

abbrev tall_panel : Panel
tall_panel = record { status_panel_height = 400; previous_panel_height = 300; is_dragging = true }

abbrev relayed : PingEntry
relayed = record {
  err = none;
  peer_relay = none;
  derp_region_id = some 7;
  peer_api_url = some "http://100.64.0.1";
}

abbrev direct_ping : PingEntry
direct_ping = record relayed { derp_region_id = none; peer_api_url = none }

edge_colors_are_kinds_example :
    ((get_edge_color_from_result (some relayed) ≡ get_edge_color_from_result (some direct_ping)) ↔ (
      (get_connection_type (some relayed)).label ≡ (get_connection_type (some direct_ping)).label))
    × ((get_edge_color_from_result (some relayed) ≡ get_edge_color_from_result (some direct_ping))
        ↔ ((get_connection_type (some relayed)).color
            ≡ (get_connection_type (some direct_ping)).color))
    × ((name : String) × (get connection_legend (get_edge_color_from_result (some relayed))
          ≡ some name)
        × (get legend_names (get_connection_type (some relayed)).label ≡ some name))
edge_colors_are_kinds_example = edge_colors_are_kinds relayed direct_ping

reachable_targets_iff_example :
    (has (reachable_targets nodes hosts edges hosts true) "p3" ≡ true)
    ↔ IsReachable nodes hosts edges hosts true "p3"
reachable_targets_iff_example = reachable_targets_iff nodes hosts edges hosts true "p3"

distinct_nodes : IsUnique (map (λ n. n.id) nodes)
unfolding has
distinct_nodes = (refl, (refl, (refl, (refl, (refl, tt)))))

distinct_hosts : IsUnique hosts
unfolding has
distinct_hosts = (refl, (refl, tt))

reachable_peers : reachable selection ≡ "p1" ∷ "p3" ∷ []
unfolding has reachable_targets is_online reachable_targets_base target_nodes has_edge online_node
    find_node
reachable_peers = refl

selected_is_reachable : Subset ("p1" ∷ []) (reachable selection)
unfolding has
selected_is_reachable a h = rw reachable_peers (rw (← (eq_iff "p1" a).0 (ground (arith, h))) refl)

pub selection-IsConsistent : IsConsistent selection
unfolding has
selection-IsConsistent = record {
  hosts_unique = distinct_hosts;
  hosts_known = λ a h. h;
  targets_unique = (refl, tt);
  targets_reachable = selected_is_reachable;
}

p3_is_reachable : has (reachable selection) "p3" ≡ true
unfolding has
p3_is_reachable = rw reachable_peers refl

Step-IsConsistent_example : IsConsistent (toggle_target "p3" selection)
Step-IsConsistent_example = Step-IsConsistent (target "p3" p3_is_reachable) selection-IsConsistent

toggle_hide_offline-selects_reachable_example :
    has (toggle_hide_offline selection).selected_targets "p2"
    ≡ has (reachable (record selection { hide_offline_peers = false })) "p2"
toggle_hide_offline-selects_reachable_example =
    toggle_hide_offline-selects_reachable selection (ground arith) (ground arith)
      (unfold has in (refl, tt)) "p2"

some_peer : targets_enabled selection ≡ true
unfolding targets_enabled
some_peer = rw reachable_peers refl

targets_label_iff_example :
    (targets_label selection ≡ "Deselect All Peers")
    ↔ ((toggle_all_targets selection).selected_targets ≡ [])
targets_label_iff_example = targets_label_iff selection some_peer

toggle_all_targets_cases_example :
    (Subset (reachable selection) selection.selected_targets
      → (toggle_all_targets selection).selected_targets ≡ [])
    × (¬ Subset (reachable selection) selection.selected_targets
        → (a : String)
        → has (toggle_all_targets selection).selected_targets a ≡ has (reachable selection) a)
toggle_all_targets_cases_example =
    toggle_all_targets_cases selection selection-IsConsistent distinct_nodes

abbrev surroundings : Surroundings
surroundings = record {
  stringify = λ r. "{}";
  missing_data = "undefined";
  redact_node_titles = false;
}

abbrev answer_node : PeerNode
answer_node = record {
  id = "p1";
  label = "p1";
  node_data = some (record { online = some true; exit_node = none; exit_node_option = none });
}

abbrev peermap : Outcome (Option PeermapResponse)
peermap =
    returned
      (some (record { edges = some edges; hosts = some hosts; nodes = some (answer_node ∷ []) }))
