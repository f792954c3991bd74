-- ===== src/Selection/Defaults.antt =====
-- What is selected after loading, and after a change of "Hide Offline".
use tsymbiote.Prelude.{◌<◌, String, ◌≡◌, ◌∙◌, Bool, true, not, ◌&&◌, arith, if◌then◌else◌, length}
use tsymbiote.Prelude.JsSet.{has, IsUnique, has-from_list}
use tsymbiote.Prelude.JsSet.Filter.{has-filter}
use tsymbiote.Peers.{is_online}
use tsymbiote.Peers.Reachability.{has-target_nodes, has-reachable_targets}
use tsymbiote.Selection.{
  Selection, targets, reachable, default_targets, select_default_targets, settle_all,
  toggle_hide_offline,
}
use tsymbiote.Selection.Effects.{has-deselect_offline, has-drop_unreachable}
use tsymbiote.Selection.Consistency.{
  before_drop, before_drop_frame, before_drop-IsUnique, select_default_targets_frame,
}

shown : Selection → String → Bool
shown s a = if s.hide_offline_peers then is_online s.nodes a else true

has-default_targets :
    (s : Selection) (a : String) → has (default_targets s) a ≡ (shown s a && has (targets s) a)
unfolding default_targets shown
has-default_targets s a =
    has-filter (λ i. if s.hide_offline_peers then is_online s.nodes i else true) (targets s) a

-- What the first two effects leave selected, where there are nodes and hosts.
has-before_drop :
    (s : Selection)
    → 0 < length s.nodes
    → 0 < length s.hosts
    → (a : String) → has (before_drop s).selected_targets a ≡ (shown s a && has (targets s) a)
unfolding before_drop shown select_default_targets
has-before_drop s n h a =
    has-deselect_offline (select_default_targets s) a
    ∙ rw (select_default_targets_frame s) (ground (arith, chosen, has-default_targets s a))
  where
    chosen : has (select_default_targets s).selected_targets a ≡ has (default_targets s) a
    chosen = ground (arith, has-from_list (default_targets s) a)

-- Once there are nodes and hosts, the three effects leave exactly the reachable peers selected,
-- whatever was selected before.
settle_all-selects_reachable :
    (s : Selection)
    → 0 < length s.nodes
    → 0 < length s.hosts
    → IsUnique s.selected_targets
    → (a : String) → has (settle_all s).selected_targets a ≡ has (reachable s) a
unfolding settle_all before_drop
settle_all-selects_reachable s n h u a =
    has-drop_unreachable (before_drop s) (before_drop-IsUnique s u) a
    ∙ (rw (before_drop_frame s) (ground (arith, has-before_drop s n h a, listed)))
  where
    listed : has (reachable s) a ≡ (has (reachable s) a && (shown s a && has (targets s) a))
    listed =
        unfold shown in
        rw (has-reachable_targets s.nodes s.hosts s.edges s.selected_hosts s.hide_offline_peers a)
          (rw (has-target_nodes s.nodes s.hosts a) (ground arith))

-- Toggling "Hide Offline" forgets which peers the user had deselected: where there are nodes and
-- hosts, exactly the peers that are reachable under the new setting are selected after it.
pub toggle_hide_offline-selects_reachable :
    (s : Selection)
    → 0 < length s.nodes
    → 0 < length s.hosts
    → IsUnique s.selected_targets
    → (a : String)
    → has (toggle_hide_offline s).selected_targets a
      ≡ has (reachable (record s { hide_offline_peers = not s.hide_offline_peers })) a
unfolding toggle_hide_offline
toggle_hide_offline-selects_reachable s n h u a =
    settle_all-selects_reachable (record s { hide_offline_peers = not s.hide_offline_peers }) n h u
      a
