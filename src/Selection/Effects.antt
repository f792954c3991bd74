-- ===== src/Selection/Effects.antt =====
-- What each effect leaves selected.
use tsymbiote.Prelude.{
  ◌≤◌, String, ◌≡◌, ap, ◌∙◌, inl, inr, true, not, ◌&&◌, List, [], ◌∷◌, arith, ◌==◌, eq_iff, ltb,
  nat_eq, if◌then◌else◌, Bool-cases, length, filter,
}
use tsymbiote.Prelude.JsSet.{
  JsSet, has, delete, from_list, IsUnique, Subset, has-delete, has-from_list, from_list-IsUnique,
  delete-IsUnique,
}
use tsymbiote.Prelude.JsSet.Size.{Subset_of_size}
use tsymbiote.Prelude.JsSet.Filter.{has-filter}
use tsymbiote.Peers.{Node, is_online}
use tsymbiote.Selection.{
  Selection, reachable, select_default_targets, drop_offline, deselect_offline, drop_unreachable,
}

has-drop_offline :
    (nodes : List Node) (ids : List String) (set : JsSet) (a : String)
    → has (drop_offline nodes ids set) a ≡ (has set a && not (has ids a && not (is_online nodes a)))
unfolding drop_offline has
has-drop_offline nodes [] set a = ground arith
has-drop_offline nodes (i ∷ ids) set a = elim (Bool-cases (is_online nodes i)) [
  | inl on ↦ rw on (rw (has-drop_offline nodes ids set a) (ground (arith, on, eq_iff i a, same)))
  | inr off ↦ rw off (
      rw (has-drop_offline nodes ids (delete set i) a)
        (rw (has-delete set i a) (ground (arith, off, eq_iff i a, same))))
]
  where
    same : (i == a) ≡ true → is_online nodes i ≡ is_online nodes a
    same e = ap (is_online nodes) ((eq_iff i a).0 e)

drop_offline-IsUnique :
    (nodes : List Node) (ids : List String) (set : JsSet)
    → IsUnique set
    → IsUnique (drop_offline nodes ids set)
unfolding drop_offline
drop_offline-IsUnique nodes [] set u = u
drop_offline-IsUnique nodes (i ∷ ids) set u = elim (Bool-cases (is_online nodes i)) [
  | inl on ↦ rw on (drop_offline-IsUnique nodes ids set u)
  | inr off ↦ rw off (drop_offline-IsUnique nodes ids (delete set i) (delete-IsUnique set i u))
]

module _ (s : Selection) where
  pub deselect_offline-IsUnique :
      IsUnique s.selected_targets → IsUnique (deselect_offline s).selected_targets
  unfolding deselect_offline
  deselect_offline-IsUnique u = elim (Bool-cases s.hide_offline_peers) [
    | inl on ↦ rw on (drop_offline-IsUnique s.nodes s.selected_targets s.selected_targets u)
    | inr off ↦ rw off u
  ]

  -- What is selected stays selected, unless offline peers are hidden and it is one.
  pub has-deselect_offline :
      (a : String)
      → has (deselect_offline s).selected_targets a
        ≡ (has s.selected_targets a && (if s.hide_offline_peers then is_online s.nodes a else true))
  unfolding deselect_offline
  has-deselect_offline a = elim (Bool-cases s.hide_offline_peers) [
    | inl on ↦
        rw on (rw (has-drop_offline s.nodes s.selected_targets s.selected_targets a) (ground arith))
    | inr off ↦ rw off (ground arith)
  ]

  pub select_default_targets-IsUnique :
      IsUnique s.selected_targets → IsUnique (select_default_targets s).selected_targets
  unfolding select_default_targets
  select_default_targets-IsUnique u =
      elim (Bool-cases (ltb 0 (length s.nodes) && ltb 0 (length s.hosts))) [
        | inl e ↦ rw e (from_list-IsUnique _)
        | inr e ↦ rw e u
      ]

  pub drop_unreachable-IsUnique :
      IsUnique s.selected_targets → IsUnique (drop_unreachable s).selected_targets
  unfolding drop_unreachable
  drop_unreachable-IsUnique u =
      elim (Bool-cases (nat_eq (length kept) (length s.selected_targets))) [
        | inl e ↦ rw e u
        | inr e ↦ rw e (from_list-IsUnique _)
      ]
    where
      kept : JsSet
      kept = from_list (filter (has (reachable s)) s.selected_targets)

  -- Although the set is replaced only if its size changed, exactly the reachable ones stay.
  pub has-drop_unreachable :
      IsUnique s.selected_targets
      → (a : String)
      → has (drop_unreachable s).selected_targets a
        ≡ (has (reachable s) a && has s.selected_targets a)
  unfolding drop_unreachable
  has-drop_unreachable u a = elim (Bool-cases (nat_eq (length kept) (length s.selected_targets))) [
    | inl e ↦ rw e (ground (arith, has-kept a, all_kept (ground (arith, e)) a))
    | inr e ↦ rw e (has-kept a)
  ]
    where
      kept : JsSet
      kept = from_list (filter (has (reachable s)) s.selected_targets)

      has-kept : (b : String) → has kept b ≡ (has (reachable s) b && has s.selected_targets b)
      has-kept b =
          has-from_list (filter (has (reachable s)) s.selected_targets) b
          ∙ has-filter (has (reachable s)) s.selected_targets b

      all_kept : length s.selected_targets ≤ length kept → Subset s.selected_targets kept
      all_kept le =
          Subset_of_size kept s.selected_targets (from_list-IsUnique _)
            (λ b i. ground (arith, has-kept b, i)) le
