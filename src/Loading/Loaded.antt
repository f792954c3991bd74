-- ===== src/Loading/Loaded.antt =====
-- What the app shows and selects after the peer map has come, or has not.
use tsymbiote.Prelude.{
  String, [], ◌≡◌, refl, ◌≢◌, ◌↔◌, Bool, true, false, false≢true, Option, none, some, List, eq_iff,
  if◌then◌else◌,
}
use tsymbiote.Prelude.JsSet.{has, IsUnique, Subset, from_list-IsUnique}
use tsymbiote.Api.{Outcome, returned, thrown}
use tsymbiote.Constants.{node_color_default, node_color_offline}
use tsymbiote.Peers.{Node, NodeData, Edge}
use tsymbiote.Selection.{Selection, initial_selection}
use tsymbiote.Selection.Consistency.{
  IsConsistent, nil-Subset, from_list-Subset, settle_all-IsConsistent,
}
use tsymbiote.Loading.{
  PeerNode, PeerNodeData, PeermapResponse, Loading, Surroundings, transform_node, transform_data,
  transform_nodes, accept_peermap, fetch_data, with_nodes, with_hosts, or_no_hosts, accept,
  is_offline,
}

abbrev initial_loading : Loading
initial_loading = record { selection = initial_selection; loading = true; error = none }

-- What the selection must be for the effects after loading to make it consistent.
IsReady : Selection → Type 0
IsReady s =
    IsUnique s.selected_hosts × Subset s.selected_hosts s.hosts × IsUnique s.selected_targets

hosts-IsReady :
    (hosts : List String) (s : Loading)
    → IsReady s.selection
    → IsReady (with_hosts hosts s).selection
unfolding IsReady
hosts-IsReady hosts s (u, k, t) = (from_list-IsUnique hosts, from_list-Subset hosts, t)

with_nodes-IsReady :
    (w : Surroundings) (edges : List Edge) (nodes : Option (List Node)) (hosts : List String)
    (s : Loading)
    → IsReady s.selection
    → IsReady (with_nodes w edges nodes (with_hosts hosts s)).selection
unfolding IsReady
with_nodes-IsReady w edges none hosts s r = hosts-IsReady hosts s r
with_nodes-IsReady w edges (some nodes) hosts s r = hosts-IsReady hosts s r

accept_peermap-IsReady :
    (w : Surroundings) (e : Option (List Edge)) (h : Option (List String))
    (p : Option (List PeerNode)) (s : Loading)
    → IsReady s.selection
    → IsReady (accept_peermap w (some (record { edges = e; hosts = h; nodes = p })) s).selection
unfolding accept_peermap
accept_peermap-IsReady w e h none s r = r
accept_peermap-IsReady w none h (some p) s r = r
accept_peermap-IsReady w (some e) h (some p) s r =
    with_nodes-IsReady w e (transform_nodes w.redact_node_titles (or_no_hosts h) p) (or_no_hosts h)
      s r

accept-IsReady :
    (w : Surroundings) (answer : Outcome (Option PeermapResponse)) (s : Loading)
    → IsReady s.selection
    → IsReady (accept w answer s).selection
unfolding accept_peermap
accept-IsReady w (thrown m) s r = r
accept-IsReady w (returned none) s r = r
accept-IsReady w (returned (some d)) s r = accept_peermap-IsReady w d.edges d.hosts d.nodes s r

-- The selection is consistent after the first fetch also where the user has used the controls before the answer comes.
pub fetch_data_kept :
    (w : Surroundings) (answer : Outcome (Option PeermapResponse)) (s : Loading)
    → IsUnique s.selection.selected_hosts
    → Subset s.selection.selected_hosts s.selection.hosts
    → IsUnique s.selection.selected_targets
    → IsConsistent (fetch_data w answer s).selection
unfolding fetch_data IsReady
fetch_data_kept w answer s u k t =
    let (v, l, d) = accept-IsReady w answer s (u, k, t) in
    settle_all-IsConsistent (accept w answer s).selection v l d

initial-IsReady : IsReady initial_selection
unfolding IsReady
initial-IsReady = (tt, nil-Subset [], tt)

-- Whatever the answer to the first fetch, the app is no longer loading, and its selection is
-- consistent.
fetch_data-IsConsistent :
    (w : Surroundings) (answer : Outcome (Option PeermapResponse))
    → ((fetch_data w answer initial_loading).loading ≡ false)
      × IsConsistent (fetch_data w answer initial_loading).selection
unfolding fetch_data IsReady
fetch_data-IsConsistent w answer =
    let (u, k, t) = initial-IsReady in (refl, fetch_data_kept w answer initial_loading u k t)

colors_differ : node_color_default ≢ node_color_offline
colors_differ p = false≢true ((eq_iff node_color_default node_color_offline).1 p)

fill_iff :
    (online : Option Bool)
    → ((if is_offline online then node_color_offline else node_color_default) ≡ node_color_offline)
      ↔ (online ≡ some false)
fill_iff none = (λ p. absurd (colors_differ p), λ q. cc)
fill_iff (some true) = (λ p. absurd (colors_differ p), λ q. cc)
fill_iff (some false) = (λ _. refl, λ _. refl)

-- A node of the answer keeps its id, and is drawn in the offline colour exactly if it is marked as
-- not online; it is marked as a host exactly if the answer lists it as one.
pub transform_node_fields :
    (redact : Bool) (hosts : List String) (n : PeerNode) (d : PeerNodeData)
    → n.node_data ≡ some d
    → (m : Node) × (transform_node redact hosts n ≡ some m)
      × (m.id ≡ n.id)
      × ((m.fill ≡ node_color_offline) ↔ (d.online ≡ some false))
      × (e : NodeData) × (m.node_data ≡ some e)
      × (e.has_symbiote ≡ has hosts n.id)
unfolding transform_node transform_data
transform_node_fields redact hosts n d h = rw h (_, refl, refl, fill_iff d.online, _, refl, refl)
