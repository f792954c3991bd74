-- ===== src/Peers.antt =====
-- web-ui/src/hooks/useOnlineFilter.ts: which nodes are online, which are targets, and which targets
-- a selection of hosts can reach. The fields of a node that the app only displays are left out.
pub mod Reachability
use tsymbiote.Prelude.{
  String, Bool, true, false, not, ◌&&◌, Option, none, some, List, [], ◌∷◌, map, ◌==◌, if◌then◌else◌,
  filter, any, find,
}
use tsymbiote.Prelude.JsSet.{JsSet, has}

-- `Online` is none where the data leaves it out.
pub record NodeData : Type 0 where
  pub online : Option Bool
  pub has_symbiote : Bool
  pub exit_node : Bool
  pub exit_node_option : Bool

pub record Node : Type 0 where
  pub id : String
  pub label : String
  pub fill : String
  pub node_data : Option NodeData

pub record Edge : Type 0 where
  pub id : String
  pub source : String
  pub target : String

-- node?.data?.Online !== false
abbrev pub not_offline : Option NodeData → Bool
not_offline none = true
not_offline (some d) = elim d.online [ some false ↦ false | _ ↦ true ]

unfoldable pub online_node : Option Node → Bool
online_node none = true
online_node (some n) = not_offline n.node_data

-- nodes.find(n => n.id === nodeId)
unfoldable pub find_node : List Node → String → Option Node
find_node nodes node_id = find (λ n. n.id == node_id) nodes

unfoldable pub is_online : List Node → String → Bool
is_online nodes node_id = online_node (find_node nodes node_id)

unfoldable pub filter_online : List Node → List String → List String
filter_online nodes ids = filter (is_online nodes) ids

-- `targetNodes` of useReachableTargets
unfoldable pub target_nodes : List Node → List String → List String
target_nodes nodes hosts = filter (λ i. not (has hosts i)) (map (λ n. n.id) nodes)

-- edges.some(edge => edge.source === source && edge.target === target)
unfoldable pub has_edge : List Edge → String → String → Bool
has_edge edges source target = any (λ e. (e.source == source) && (e.target == target)) edges

-- `reachableTargetsBase`
unfoldable pub reachable_targets_base : List Node → List String → List Edge → JsSet → List String
reachable_targets_base nodes hosts edges [] = []
reachable_targets_base nodes hosts edges (h ∷ hs) =
    filter (λ t. any (λ s. has_edge edges s t) (h ∷ hs)) (target_nodes nodes hosts)

-- `reachableTargets`
unfoldable pub reachable_targets : List Node → List String → List Edge → JsSet → Bool → List String
reachable_targets nodes hosts edges selected_hosts hide_offline_peers =
    if hide_offline_peers
    then filter (is_online nodes) (reachable_targets_base nodes hosts edges selected_hosts)
    else reachable_targets_base nodes hosts edges selected_hosts
