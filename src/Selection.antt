-- ===== src/Selection.antt =====
-- web-ui/src/App.tsx: the graph's data, which hosts and which targets are selected, and the effects
-- that keep the selection in step with what is reachable. A user event is the handler followed by
-- the effects whose dependencies it changed, in the order in which the app declares them.
pub mod Effects
pub mod Consistency
pub mod Defaults
pub mod ToggleAll
pub mod Visible
use tsymbiote.Prelude.{
  String, Bool, true, false, not, ◌&&◌, ◌||◌, List, [], ◌∷◌, ◌==◌, ltb, nat_eq, if◌then◌else◌,
  length, filter, any,
}
use tsymbiote.Prelude.JsSet.{JsSet, has, add, delete, from_list}
use tsymbiote.Peers.{Node, Edge, is_online, target_nodes, reachable_targets}

pub record Selection : Type 0 where
  pub nodes : List Node
  pub edges : List Edge
  pub hosts : List String
  pub selected_hosts : JsSet
  pub selected_targets : JsSet
  pub hide_offline_peers : Bool

-- the `useState` calls
abbrev pub initial_selection : Selection
initial_selection = record {
  nodes = [];
  edges = [];
  hosts = [];
  selected_hosts = [];
  selected_targets = [];
  hide_offline_peers = true;
}

-- `targetNodes` and `reachableTargets`, as useReachableTargets computes them on each render
abbrev pub targets : Selection → List String
targets s = target_nodes s.nodes s.hosts

abbrev pub reachable : Selection → List String
reachable s = reachable_targets s.nodes s.hosts s.edges s.selected_hosts s.hide_offline_peers

-- the `filter` of the effect below: only the online targets, if offline peers are hidden
unfoldable pub default_targets : Selection → List String
default_targets s =
    filter (λ i. if s.hide_offline_peers then is_online s.nodes i else true) (targets s)

-- the effect on [nodes, hosts, hideOfflinePeers]
unfoldable pub select_default_targets : Selection → Selection
unfolding default_targets
select_default_targets s =
    if ltb 0 (length s.nodes) && ltb 0 (length s.hosts)
    then record s { selected_targets = from_list (default_targets s) }
    else s

drop_offline : List Node → List String → JsSet → JsSet
drop_offline nodes [] set = set
drop_offline nodes (i ∷ ids) set =
    drop_offline nodes ids (if is_online nodes i then set else delete set i)

-- the effect on [hideOfflinePeers, nodes]
unfoldable pub deselect_offline : Selection → Selection
unfolding drop_offline
deselect_offline s =
    if s.hide_offline_peers
    then record s { selected_targets = drop_offline s.nodes s.selected_targets s.selected_targets }
    else s

-- the effect on [reachableTargets]
unfoldable pub drop_unreachable : Selection → Selection
drop_unreachable s =
    let kept = from_list (filter (has (reachable s)) s.selected_targets) in
    if nat_eq (length kept) (length s.selected_targets)
    then s
    else record s { selected_targets = kept }

-- the effects after a render in which the nodes, the hosts or `hideOfflinePeers` changed
unfoldable pub settle_all : Selection → Selection
settle_all s = drop_unreachable (deselect_offline (select_default_targets s))

-- `newSet.has(id) ? newSet.delete(id) : newSet.add(id)`
unfoldable pub toggle : JsSet → String → JsSet
toggle set i = if has set i then delete set i else add set i

unfoldable pub toggle_host : String → Selection → Selection
unfolding toggle
toggle_host i s = drop_unreachable (record s { selected_hosts = toggle s.selected_hosts i })

unfoldable pub toggle_all_hosts : Selection → Selection
toggle_all_hosts s = drop_unreachable (record s {
  selected_hosts =
      if nat_eq (length s.selected_hosts) (length s.hosts) then [] else from_list s.hosts;
})

unfoldable pub toggle_target : String → Selection → Selection
unfolding toggle
toggle_target i s = record s { selected_targets = toggle s.selected_targets i }

unfoldable pub toggle_all_targets : Selection → Selection
toggle_all_targets s = record s {
  selected_targets =
      if nat_eq (length s.selected_targets) (length (reachable s))
      then []
      else from_list (reachable s);
}

-- the "Hide Offline" checkbox
unfoldable pub toggle_hide_offline : Selection → Selection
unfolding settle_all
toggle_hide_offline s = settle_all (record s { hide_offline_peers = not s.hide_offline_peers })

-- "Filter To Host" of the context menu
unfoldable pub filter_to_host : String → Selection → Selection
filter_to_host i s = drop_unreachable (record s { selected_hosts = from_list (i ∷ []) })

-- what the reset button and the R key do to the selection
unfoldable pub reset_selection : Selection → Selection
reset_selection s =
    drop_unreachable
      (record s { selected_hosts = from_list s.hosts; selected_targets = from_list (targets s) })

abbrev pub linked : List Edge → String → String → Bool
linked edges a b =
    any (λ e. ((e.source == a) && (e.target == b)) || ((e.source == b) && (e.target == a))) edges

-- `selectedHostsHaveEdges`: the two nested loops over the host array
unfoldable pub hosts_have_edges : List Edge → List String → Bool
hosts_have_edges edges [] = false
hosts_have_edges edges (h ∷ hs) = any (linked edges h) hs || hosts_have_edges edges hs

unfoldable pub selected_hosts_have_edges : Selection → Bool
unfolding hosts_have_edges
selected_hosts_have_edges s =
    if ltb (length s.selected_hosts) 2 then false else hosts_have_edges s.edges s.selected_hosts

-- `filteredNodes`
unfoldable pub filtered_nodes : Selection → List Node
filtered_nodes s =
    filter
      (λ n.
        has s.selected_hosts n.id
        || (has s.selected_targets n.id && ltb 0 (length s.selected_hosts)))
      s.nodes
