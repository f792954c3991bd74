-- ===== src/Peers/Reachability.antt =====
-- What it means for a target to be reachable.
use tsymbiote.Prelude.{
  String, ◌≡◌, refl, ◌↔◌, Bool, true, false, not, ◌&&◌, List, [], ◌∷◌, map, arith, if◌then◌else◌,
  any,
}
use tsymbiote.Prelude.JsSet.{JsSet, has, IsUnique}
use tsymbiote.Prelude.JsSet.Filter.{has-filter, filter-IsUnique, any_of_has, has_of_any}
use tsymbiote.Peers.{
  Node, Edge, is_online, target_nodes, has_edge, reachable_targets_base, reachable_targets,
}

-- `a` is the id of a node that is no host.
abbrev pub IsTarget : List Node → List String → String → Type 0
IsTarget nodes hosts a = (has (map (λ n. n.id) nodes) a ≡ true) × (has hosts a ≡ false)

-- What the list of peers is meant to show: targets with an edge from a selected host, and, where
-- offline peers are hidden, online.
pub record IsReachable (nodes : List Node) (hosts : List String) (edges : List Edge)
    (selected_hosts : JsSet) (hide : Bool) (a : String) : Type 0 where
  pub target : IsTarget nodes hosts a
  pub source : String
  pub selected : has selected_hosts source ≡ true
  pub linked : has_edge edges source a ≡ true
  pub shown : hide ≡ true → is_online nodes a ≡ true

module _ (nodes : List Node) (hosts : List String) where
  pub has-target_nodes :
      (a : String)
      → has (target_nodes nodes hosts) a ≡ (not (has hosts a) && has (map (λ n. n.id) nodes) a)
  unfolding target_nodes
  has-target_nodes a = has-filter (λ i. not (has hosts i)) (map (λ n. n.id) nodes) a

  module _ (edges : List Edge) where
    has-reachable_targets_base :
        (sel : JsSet) (a : String)
        → has (reachable_targets_base nodes hosts edges sel) a
          ≡ (any (λ s. has_edge edges s a) sel && has (target_nodes nodes hosts) a)
    unfolding reachable_targets_base
    has-reachable_targets_base [] a = unfold has in ground arith
    has-reachable_targets_base (h ∷ hs) a =
        has-filter (λ t. any (λ s. has_edge edges s t) (h ∷ hs)) (target_nodes nodes hosts) a

    pub has-reachable_targets :
        (sel : JsSet) (hide : Bool) (a : String)
        → has (reachable_targets nodes hosts edges sel hide) a ≡ (
            (if hide then is_online nodes a else true)
            && (any (λ s. has_edge edges s a) sel
                && (not (has hosts a) && has (map (λ n. n.id) nodes) a)))
    unfolding reachable_targets
    has-reachable_targets sel true a =
        rw (has-filter (is_online nodes) (reachable_targets_base nodes hosts edges sel) a)
          (rw (has-reachable_targets_base sel a) (rw (has-target_nodes a)))
    has-reachable_targets sel false a =
        rw (has-reachable_targets_base sel a) (rw (has-target_nodes a) (ground arith))

    -- A peer is in the list of reachable targets exactly if it is a node that is no host, has an
    -- edge from some selected host, and, where offline peers are hidden, is not marked offline.
    pub reachable_targets_iff :
        (sel : JsSet) (hide : Bool) (a : String)
        → (has (reachable_targets nodes hosts edges sel hide) a ≡ true)
          ↔ IsReachable nodes hosts edges sel hide a
    reachable_targets_iff sel hide a = (sound, complete)
      where
        sound :
            has (reachable_targets nodes hosts edges sel hide) a ≡ true
            → IsReachable nodes hosts edges sel hide a
        sound h =
            let e = rw (has-reachable_targets sel hide a) at h in
            let (s, i, l) = has_of_any (λ s. has_edge edges s a) sel (ground (arith, e)) in
            record {
              target = (ground (arith, e), ground (arith, e));
              source = s;
              selected = i;
              linked = l;
              shown = λ q. ground (arith, e, q);
            }

        complete :
            IsReachable nodes hosts edges sel hide a
            → has (reachable_targets nodes hosts edges sel hide) a ≡ true
        complete r = rw (has-reachable_targets sel hide a) (
            ground (
              arith,
              r.target.0,
              r.target.1,
              r.shown,
              any_of_has (λ s. has_edge edges s a) sel r.source r.selected r.linked,
            ))

    -- With distinct node ids no peer is listed twice.
    pub reachable_targets-IsUnique :
        (sel : JsSet) (hide : Bool)
        → IsUnique (map (λ n. n.id) nodes)
        → IsUnique (reachable_targets nodes hosts edges sel hide)
    unfolding reachable_targets reachable_targets_base target_nodes
    reachable_targets-IsUnique [] true u = tt
    reachable_targets-IsUnique [] false u = tt
    reachable_targets-IsUnique (h ∷ hs) true u =
        filter-IsUnique _ _ (filter-IsUnique _ _ (filter-IsUnique _ _ u))
    reachable_targets-IsUnique (h ∷ hs) false u = filter-IsUnique _ _ (filter-IsUnique _ _ u)

-- No selected host, nothing to reach.
pub reachable_targets-nil :
    (nodes : List Node) (hosts : List String) (edges : List Edge) (hide : Bool)
    → reachable_targets nodes hosts edges [] hide ≡ []
unfolding reachable_targets reachable_targets_base
reachable_targets-nil nodes hosts edges true = refl
reachable_targets-nil nodes hosts edges false = refl
