-- ===== src/Ping.antt =====
-- The ping command of web-ui/src/App.tsx: which host pings which peer, the request's arguments, and
-- what is kept of the answer. The state that the command shares with others is in Console.
pub mod Combinations
pub mod Grouping
pub mod Results
use tsymbiote.Prelude.{
  String, ◌+++◌, not, ◌&&◌, Option, none, some, List, [], ◌∷◌, ◌++◌, map, ◌==◌, if◌then◌else◌,
  get_last?,
}
use tsymbiote.Prelude.JsSet.{JsSet, has, add, from_list}
use tsymbiote.Prelude.Dict.{Dict, get, put, keys}
use tsymbiote.Api.{PingArg}
use tsymbiote.Connection.{PingEntry, get_edge_color_from_result}
use tsymbiote.Peers.{Edge, has_edge}
use tsymbiote.Selection.{linked}

pub record Combination : Type 0 where
  pub host_id : String
  pub peer_id : String

-- the inner `sourceHosts.forEach`: other selected hosts with an edge to or from this one
add_linked_hosts : List Edge → String → List String → JsSet → JsSet
add_linked_hosts edges host [] set = set
add_linked_hosts edges host (other ∷ rest) set =
    add_linked_hosts edges host rest
      (if not (other == host) && linked edges host other then add set other else set)

-- the last loop: the targets with an edge from the host
combinations_of : List Edge → String → JsSet → List Combination
combinations_of edges host [] = []
combinations_of edges host (peer ∷ peers) =
    let rest = combinations_of edges host peers in
    if has_edge edges host peer then record { host_id = host; peer_id = peer } ∷ rest else rest

combinations_from : List Edge → JsSet → JsSet → List String → List Combination
combinations_from edges source_hosts target_peers [] = []
combinations_from edges source_hosts target_peers (host ∷ rest) =
    combinations_of edges host (add_linked_hosts edges host source_hosts (from_list target_peers))
    ++ combinations_from edges source_hosts target_peers rest

-- getTargetedCombinations
unfoldable pub get_targeted_combinations : JsSet → JsSet → List Edge → List Combination
unfolding combinations_from combinations_of add_linked_hosts
get_targeted_combinations source_hosts target_peers edges =
    combinations_from edges source_hosts target_peers source_hosts

-- `hostTargetsMap.get(hostId)`, or [] where the key was just set
abbrev or_empty : Option (List String) → List String
or_empty none = []
or_empty (some ts) = ts

-- the loop that fills `hostTargetsMap`
unfoldable pub group_from : Dict (List String) → List Combination → Dict (List String)
group_from m [] = m
group_from m (c ∷ cs) =
    group_from (put m c.host_id (or_empty (get m c.host_id) ++ c.peer_id ∷ [])) cs

unfoldable pub host_targets_map : List Combination → Dict (List String)
unfolding group_from
host_targets_map cs = group_from [] cs

-- `args` of the request
unfoldable pub ping_args : Dict (List String) → List PingArg
ping_args m = map (λ (h, ts). record { host = h; targets = ts }) m

-- One result of the answer; `results` is none where it is missing or null, and so is an entry.
pub record PingResult : Type 0 where
  pub host : String
  pub target : String
  pub results : Option (List (Option PingEntry))

-- What `outputData` holds for a target.
pub data PingCell : Type 0 where
  answered : Option (List (Option PingEntry)) → PingCell
  ping_error : String → PingCell

-- `${source}-${target}`
unfoldable pub edge_id : String → String → String
edge_id source target = source +++ "-" +++ target

abbrev or_none : Option (Dict PingCell) → Dict PingCell
or_none none = []
or_none (some d) = d

-- results[host][target] = cell, after `results[host] = {}` if it is missing
unfoldable pub store_cell : Dict (Dict PingCell) → String → String → PingCell → Dict (Dict PingCell)
store_cell d host target cell = put d host (put (or_none (get d host)) target cell)

-- the output of the loop over the answer
unfoldable pub collect_ping : Dict (Dict PingCell) → List PingResult → Dict (Dict PingCell)
unfolding store_cell
collect_ping d [] = d
collect_ping d (r ∷ rs) = collect_ping (store_cell d r.host r.target (answered r.results)) rs

-- the colour that one result gives: that of its last entry, if it has any
unfoldable pub result_color : PingResult → Option String
result_color r = elim r.results [
  | none ↦ none
  | some entries ↦ elim (get_last? entries) [
    | none ↦ none
    | some last ↦ some (get_edge_color_from_result last)
  ]
]

unfoldable pub color_edge : Dict String → String → Option String → Dict String
color_edge d i none = d
color_edge d i (some color) = put d i color

-- `newEdgeColors`
unfoldable pub new_edge_colors : Dict String → List PingResult → Dict String
unfolding color_edge result_color edge_id
new_edge_colors d [] = d
new_edge_colors d (r ∷ rs) =
    new_edge_colors (color_edge d (edge_id r.host r.target) (result_color r)) rs

-- the `catch` of the inner `try`: each target that was to be pinged gets the error
fail_targets : String → String → List String → Dict (Dict PingCell) → Dict (Dict PingCell)
fail_targets message host [] d = d
fail_targets message host (t ∷ ts) d =
    fail_targets message host ts (store_cell d host t (ping_error message))

unfoldable pub fail_ping : String → Dict (List String) → Dict (Dict PingCell) → Dict (Dict PingCell)
unfolding fail_targets store_cell
fail_ping message [] d = d
fail_ping message ((host, ts) ∷ m) d = fail_ping message m (fail_targets message host ts d)
