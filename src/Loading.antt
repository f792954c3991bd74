-- ===== src/Loading.antt =====
-- The first effect of web-ui/src/App.tsx: the peer map is fetched and becomes nodes, edges and hosts.
pub mod Loaded
use tsymbiote.Prelude.{
  String, ◌+++◌, Bool, true, false, Option, none, some, List, [], ◌∷◌, if◌then◌else◌,
}
use tsymbiote.Prelude.JsSet.{has, from_list}
use tsymbiote.Api.{Outcome, returned, thrown}
use tsymbiote.Constants.{node_color_default, node_color_offline}
use tsymbiote.Peers.{Node, NodeData, Edge}
use tsymbiote.Selection.{Selection, settle_all}

-- PeerNodeData, with the fields that the app reads
pub record PeerNodeData : Type 0 where
  pub online : Option Bool
  pub exit_node : Option Bool
  pub exit_node_option : Option Bool

pub record PeerNode : Type 0 where
  pub id : String
  pub label : String
  pub node_data : Option PeerNodeData

-- The answer; a part is none where it is missing or null, and the whole where it is null.
pub record PeermapResponse : Type 0 where
  pub edges : Option (List Edge)
  pub hosts : Option (List String)
  pub nodes : Option (List PeerNode)

pub record Loading : Type 0 where
  pub selection : Selection
  pub loading : Bool
  pub error : Option String

-- The texts that the program takes from its surroundings: the JSON of an answer, the message of
-- reading a field of a missing `data`, and the build's REDACT_NODE_TITLES.
pub record Surroundings : Type 0 where
  pub stringify : Option PeermapResponse → String
  pub missing_data : String
  pub redact_node_titles : Bool

-- `flag || false`
abbrev pub flag : Option Bool → Bool
flag none = false
flag (some b) = b

abbrev pub is_offline : Option Bool → Bool
is_offline (some false) = true
is_offline _ = false

unfoldable pub transform_data : String → List String → PeerNodeData → NodeData
transform_data i hosts d = record {
  online = d.online;
  has_symbiote = has hosts i;
  exit_node = flag d.exit_node;
  exit_node_option = flag d.exit_node_option;
}

-- one round of the `map` that makes the nodes; none is the exception of a node without `data`
unfoldable pub transform_node : Bool → List String → PeerNode → Option Node
unfolding transform_data
transform_node redact hosts n = elim n.node_data [
  | none ↦ none
  | some d ↦ some (record {
    id = n.id;
    label = if redact then "*****" else n.label;
    fill = if is_offline d.online then node_color_offline else node_color_default;
    node_data = some (transform_data n.id hosts d);
  })
]

cons_some : Option Node → Option (List Node) → Option (List Node)
cons_some (some n) (some ns) = some (n ∷ ns)
cons_some _ _ = none

unfoldable pub transform_nodes : Bool → List String → List PeerNode → Option (List Node)
unfolding transform_node cons_some
transform_nodes redact hosts [] = some []
transform_nodes redact hosts (n ∷ ns) =
    cons_some (transform_node redact hosts n) (transform_nodes redact hosts ns)

abbrev or_no_hosts : Option (List String) → List String
or_no_hosts none = []
or_no_hosts (some hs) = hs

-- setHosts, setSelectedHosts
abbrev with_hosts : List String → Loading → Loading
with_hosts hosts s = record s {
  selection = record s.selection { hosts = hosts; selected_hosts = from_list hosts };
}

abbrev with_nodes : Surroundings → List Edge → Option (List Node) → Loading → Loading
with_nodes w edges none s = record s { error = some w.missing_data }
with_nodes w edges (some nodes) s = record s {
  selection = record s.selection { nodes = nodes; edges = edges };
}

-- the body of the `try` after the `await`
unfoldable pub accept_peermap : Surroundings → Option PeermapResponse → Loading → Loading
unfolding transform_nodes
accept_peermap w none s = record s {
  error = some ("Unexpected API response format. Received: " +++ w.stringify none);
}
accept_peermap w (some r) s = elim r.nodes [
  | none ↦ record s {
    error = some ("Unexpected API response format. Received: " +++ w.stringify (some r));
  }
  | some peers ↦ elim r.edges [
    | none ↦ record s {
      error = some ("Unexpected API response format. Received: " +++ w.stringify (some r));
    }
    | some edges ↦
        with_nodes w edges (transform_nodes w.redact_node_titles (or_no_hosts r.hosts) peers)
          (with_hosts (or_no_hosts r.hosts) s)
  ]
]

abbrev accept : Surroundings → Outcome (Option PeermapResponse) → Loading → Loading
accept w (returned data_) s = accept_peermap w data_ s
accept w (thrown m) s = record s { error = some m }

-- fetchData, and the effects of the render after it
unfoldable pub fetch_data : Surroundings → Outcome (Option PeermapResponse) → Loading → Loading
unfolding accept_peermap
fetch_data w answer s =
    let t = accept w answer s in record t { loading = false; selection = settle_all t.selection }
