-- ===== src/Selection/ToggleAll.antt =====
-- The two "Select All" buttons compare sizes: when they select and when they deselect.
use tsymbiote.Prelude.{
  String, ◌≡◌, ◌↔◌, inl, inr, true, List, [], map, arith, nat_eq, Bool-cases, length,
}
use tsymbiote.Prelude.JsSet.{has, IsUnique, Subset, has-from_list}
use tsymbiote.Prelude.JsSet.Size.{size-le_of_Subset, Subset_of_size}
use tsymbiote.Peers.Reachability.{reachable_targets-IsUnique}
use tsymbiote.Selection.{Selection, reachable, toggle_all_hosts, toggle_all_targets}
use tsymbiote.Selection.Consistency.{IsConsistent, drop_unreachable_frame}

-- For two sets, one inside the other, the sizes agree exactly if the members do.
same_size_iff :
    (xs ys : List String)
    → IsUnique xs
    → IsUnique ys
    → Subset xs ys
    → (nat_eq (length xs) (length ys) ≡ true) ↔ Subset ys xs
same_size_iff xs ys u v h = (
  λ e. Subset_of_size xs ys u h (ground (arith, e)),
  λ back. ground (arith, size-le_of_Subset xs ys u h, size-le_of_Subset ys xs v back),
)

-- In a consistent selection whose nodes have distinct ids, the peers' button deselects every target
-- if all reachable ones are selected, and otherwise selects exactly the reachable ones.
pub toggle_all_targets_cases :
    (s : Selection)
    → IsConsistent s
    → IsUnique (map (λ n. n.id) s.nodes)
    → (Subset (reachable s) s.selected_targets → (toggle_all_targets s).selected_targets ≡ [])
      × (¬ Subset (reachable s) s.selected_targets
          → (a : String) → has (toggle_all_targets s).selected_targets a ≡ has (reachable s) a)
unfolding toggle_all_targets
toggle_all_targets_cases s c distinct = (
  λ all. rw (same.1 all),
  λ some_missing a. elim (Bool-cases (nat_eq (length s.selected_targets) (length (reachable s)))) [
    | inl e ↦ absurd (some_missing (same.0 e))
    | inr e ↦ rw e (has-from_list (reachable s) a)
  ],
)
  where
    same :
        (nat_eq (length s.selected_targets) (length (reachable s)) ≡ true)
        ↔ Subset (reachable s) s.selected_targets
    same =
        same_size_iff s.selected_targets (reachable s) c.targets_unique
          (reachable_targets-IsUnique s.nodes s.hosts s.edges s.selected_hosts s.hide_offline_peers
            distinct)
          c.targets_reachable

-- In a consistent selection over distinct hosts, the hosts' button deselects every host if all are
-- selected, and otherwise selects exactly the hosts.
toggle_all_hosts_cases :
    (s : Selection)
    → IsConsistent s
    → IsUnique s.hosts
    → (Subset s.hosts s.selected_hosts → (toggle_all_hosts s).selected_hosts ≡ [])
      × (¬ Subset s.hosts s.selected_hosts
          → (a : String) → has (toggle_all_hosts s).selected_hosts a ≡ has s.hosts a)
unfolding toggle_all_hosts
toggle_all_hosts_cases s c distinct = (
  λ all. rw (drop_unreachable_frame _) (rw (same.1 all)),
  λ some_missing a.
      rw (drop_unreachable_frame _)
        (elim (Bool-cases (nat_eq (length s.selected_hosts) (length s.hosts))) [
          | inl e ↦ absurd (some_missing (same.0 e))
          | inr e ↦ rw e (has-from_list s.hosts a)
        ]),
)
  where
    same :
        (nat_eq (length s.selected_hosts) (length s.hosts) ≡ true) ↔ Subset s.hosts s.selected_hosts
    same = same_size_iff s.selected_hosts s.hosts c.hosts_unique distinct c.hosts_known
