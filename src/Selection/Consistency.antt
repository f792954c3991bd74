-- ===== src/Selection/Consistency.antt =====
-- The invariant of the selection, and what loading or a change of "Hide Offline" selects.
use tsymbiote.Prelude.{
  String, ◌≡◌, sym, ap, ◌∙◌, inl, inr, true, not, ◌&&◌, List, [], ◌∷◌, arith, ◌==◌, eq_iff, ltb,
  nat_eq, if◌then◌else◌, Bool-cases, length, filter,
}
use tsymbiote.Prelude.JsSet.{
  JsSet, has, from_list, IsUnique, Subset, has-add, has-delete, has-from_list, from_list-IsUnique,
  delete-IsUnique, add-IsUnique,
}
use tsymbiote.Selection.{
  Selection, targets, reachable, select_default_targets, deselect_offline, drop_unreachable,
  settle_all, toggle, toggle_host, toggle_all_hosts, toggle_target, toggle_all_targets,
  toggle_hide_offline, filter_to_host, reset_selection,
}
use tsymbiote.Selection.Effects.{
  deselect_offline-IsUnique, select_default_targets-IsUnique, drop_unreachable-IsUnique,
  has-drop_unreachable,
}

-- Both selections are sets, only hosts are selected as hosts, and only reachable peers as targets.
pub record IsConsistent (s : Selection) : Type 0 where
  pub hosts_unique : IsUnique s.selected_hosts
  pub hosts_known : Subset s.selected_hosts s.hosts
  pub targets_unique : IsUnique s.selected_targets
  pub targets_reachable : Subset s.selected_targets (reachable s)

toggle-IsUnique : (set : JsSet) (i : String) → IsUnique set → IsUnique (toggle set i)
unfolding toggle
toggle-IsUnique set i u = elim (Bool-cases (has set i)) [
  | inl e ↦ rw e (delete-IsUnique set i u)
  | inr e ↦ rw e (add-IsUnique set i u)
]

-- Toggling flips the membership of one id and of no other.
pub has-toggle :
    (set : JsSet) (i a : String)
    → has (toggle set i) a ≡ (if i == a then not (has set a) else has set a)
unfolding toggle
has-toggle set i a = elim (Bool-cases (has set i)) [
  | inl e ↦ rw e (rw (has-delete set i a) (ground (arith, same, e)))
  | inr e ↦ rw e (rw (has-add set i a) (ground (arith, same, e)))
]
  where
    same : (i == a) ≡ true → has set i ≡ has set a
    same p = ap (has set) ((eq_iff i a).0 p)

toggle-Subset :
    (set : JsSet) (i : String) (ys : List String)
    → has ys i ≡ true
    → Subset set ys
    → Subset (toggle set i) ys
toggle-Subset set i ys known h a j = ground (arith, has-toggle set i a, h a, j, known, same)
  where
    same : (i == a) ≡ true → has ys i ≡ has ys a
    same p = ap (has ys) ((eq_iff i a).0 p)

pub from_list-Subset : (xs : List String) → Subset (from_list xs) xs
from_list-Subset xs a h = sym (has-from_list xs a) ∙ h

pub nil-Subset : (ys : List String) → Subset [] ys
unfolding has
nil-Subset ys a h = cc

singleton-Subset :
    (i : String) (ys : List String) → has ys i ≡ true → Subset (from_list (i ∷ [])) ys
unfolding has
singleton-Subset i ys known a h =
    rw (← (eq_iff i a).0 (ground (arith, has-from_list (i ∷ []) a, h))) known

drop_unreachable-Subset :
    (s : Selection)
    → IsUnique s.selected_targets
    → Subset (drop_unreachable s).selected_targets (reachable s)
drop_unreachable-Subset s u a h = ground (arith, has-drop_unreachable s u a, h)

-- `drop_unreachable` writes only the selected targets.
pub drop_unreachable_frame :
    (s : Selection)
    → drop_unreachable s ≡ record s { selected_targets = (drop_unreachable s).selected_targets }
unfolding drop_unreachable
drop_unreachable_frame s = elim (Bool-cases (nat_eq (length kept) (length s.selected_targets))) [
  | inl e ↦ rw e
  | inr e ↦ rw e
]
  where
    kept : JsSet
    kept = from_list (filter (has (reachable s)) s.selected_targets)

pub deselect_offline_frame :
    (s : Selection)
    → deselect_offline s ≡ record s { selected_targets = (deselect_offline s).selected_targets }
unfolding deselect_offline
deselect_offline_frame s = elim (Bool-cases s.hide_offline_peers) [ inl e ↦ rw e | inr e ↦ rw e ]

pub select_default_targets_frame :
    (s : Selection)
    → select_default_targets s
      ≡ record s { selected_targets = (select_default_targets s).selected_targets }
unfolding select_default_targets
select_default_targets_frame s =
    elim (Bool-cases (ltb 0 (length s.nodes) && ltb 0 (length s.hosts))) [
      | inl e ↦ rw e
      | inr e ↦ rw e
    ]

-- Once the selected hosts are a set of hosts and the targets a set, the last effect restores the
-- invariant.
drop_unreachable-IsConsistent :
    (s : Selection)
    → IsUnique s.selected_hosts
    → Subset s.selected_hosts s.hosts
    → IsUnique s.selected_targets
    → IsConsistent (drop_unreachable s)
drop_unreachable-IsConsistent s u k t = rw (drop_unreachable_frame s) (record {
  hosts_unique = u;
  hosts_known = k;
  targets_unique = drop_unreachable-IsUnique s t;
  targets_reachable = drop_unreachable-Subset s t;
})

-- `settle_all` starts from the selection that the first two effects leave.
unfoldable pub before_drop : Selection → Selection
before_drop s = deselect_offline (select_default_targets s)

pub before_drop_frame :
    (s : Selection)
    → before_drop s ≡ record s { selected_targets = (before_drop s).selected_targets }
unfolding before_drop
before_drop_frame s =
    deselect_offline_frame (select_default_targets s)
    ∙ ap
        (λ (r : Selection). record r {
          selected_targets = (deselect_offline (select_default_targets s)).selected_targets;
        })
        (select_default_targets_frame s)

pub before_drop-IsUnique :
    (s : Selection) → IsUnique s.selected_targets → IsUnique (before_drop s).selected_targets
unfolding before_drop
before_drop-IsUnique s t =
    deselect_offline-IsUnique (select_default_targets s) (select_default_targets-IsUnique s t)

pub settle_all-IsConsistent :
    (s : Selection)
    → IsUnique s.selected_hosts
    → Subset s.selected_hosts s.hosts
    → IsUnique s.selected_targets
    → IsConsistent (settle_all s)
unfolding settle_all before_drop
settle_all-IsConsistent s u k t =
    drop_unreachable-IsConsistent (before_drop s) (rw (before_drop_frame s) u)
      (rw (before_drop_frame s) k) (before_drop-IsUnique s t)

-- What the user can do to the selection. The sidebar lists only hosts and reachable peers, and only
-- a host's context menu has "Filter To Host".
pub data Step (s : Selection) : Selection → Type 0 where
  host : (i : String) → has s.hosts i ≡ true → Step s (toggle_host i s)
  all_hosts : Step s (toggle_all_hosts s)
  target : (i : String) → has (reachable s) i ≡ true → Step s (toggle_target i s)
  all_targets : Step s (toggle_all_targets s)
  hide_offline : Step s (toggle_hide_offline s)
  only_host : (i : String) → has s.hosts i ≡ true → Step s (filter_to_host i s)
  reset : Step s (reset_selection s)

-- If both selections are sets, of hosts only and of reachable peers only, then so they are after
-- every user event and the effects that follow it.
pub Step-IsConsistent : {s t : Selection} → Step s t → IsConsistent s → IsConsistent t
unfolding toggle_host toggle_all_hosts toggle_target toggle_all_targets toggle_hide_offline
    filter_to_host reset_selection
Step-IsConsistent {s} (host i known) c =
    drop_unreachable-IsConsistent _ (toggle-IsUnique s.selected_hosts i c.hosts_unique)
      (toggle-Subset s.selected_hosts i s.hosts known c.hosts_known) c.targets_unique
Step-IsConsistent {s} all_hosts c =
    elim (Bool-cases (nat_eq (length s.selected_hosts) (length s.hosts))) [
      | inl e ↦ rw e (drop_unreachable-IsConsistent _ tt (nil-Subset s.hosts) c.targets_unique)
      | inr e ↦ rw e (
          drop_unreachable-IsConsistent _ (from_list-IsUnique s.hosts) (from_list-Subset s.hosts)
            c.targets_unique)
    ]
Step-IsConsistent {s} (target i known) c = record {
  hosts_unique = c.hosts_unique;
  hosts_known = c.hosts_known;
  targets_unique = toggle-IsUnique s.selected_targets i c.targets_unique;
  targets_reachable = toggle-Subset s.selected_targets i (reachable s) known c.targets_reachable;
}
Step-IsConsistent {s} all_targets c =
    elim (Bool-cases (nat_eq (length s.selected_targets) (length (reachable s)))) [
      | inl e ↦ rw e (record {
        hosts_unique = c.hosts_unique;
        hosts_known = c.hosts_known;
        targets_unique = tt;
        targets_reachable = nil-Subset (reachable s);
      })
      | inr e ↦ rw e (record {
        hosts_unique = c.hosts_unique;
        hosts_known = c.hosts_known;
        targets_unique = from_list-IsUnique (reachable s);
        targets_reachable = from_list-Subset (reachable s);
      })
    ]
Step-IsConsistent {s} hide_offline c =
    settle_all-IsConsistent _ c.hosts_unique c.hosts_known c.targets_unique
Step-IsConsistent {s} (only_host i known) c =
    drop_unreachable-IsConsistent _ (from_list-IsUnique (i ∷ [])) (singleton-Subset i s.hosts known)
      c.targets_unique
Step-IsConsistent {s} reset c =
    drop_unreachable-IsConsistent _ (from_list-IsUnique s.hosts) (from_list-Subset s.hosts)
      (from_list-IsUnique (targets s))
