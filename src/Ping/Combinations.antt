-- ===== src/Ping/Combinations.antt =====
-- Which pairs are pinged.
use tsymbiote.Prelude.{
  String, ◌≡◌, refl, ap, ◌∙◌, inl, inr, Bool, true, not, ◌&&◌, ◌||◌, List, [], ◌∷◌, ◌++◌, arith,
  ◌==◌, eq_iff, Bool-cases, any,
}
use tsymbiote.Prelude.JsSet.{JsSet, has, add, from_list, has-add, has-from_list}
use tsymbiote.Peers.{Edge, has_edge}
use tsymbiote.Selection.{linked}
use tsymbiote.Ping.{
  Combination, add_linked_hosts, combinations_of, combinations_from, get_targeted_combinations,
}

-- The pair is among the combinations.
unfoldable pub has_pair : List Combination → String → String → Bool
has_pair cs h p = any (λ c. (c.host_id == h) && (c.peer_id == p)) cs

linked_of_has_edge :
    (edges : List Edge) (a b : String) → has_edge edges a b ≡ true → linked edges a b ≡ true
unfolding has_edge
linked_of_has_edge [] a b h = h
linked_of_has_edge (e ∷ edges) a b h = ground (arith, linked_of_has_edge edges a b)

has-add_linked_hosts :
    (edges : List Edge) (host : String) (others : List String) (set : JsSet) (a : String)
    → has (add_linked_hosts edges host others set) a
      ≡ (has set a || (has others a && (not (a == host) && linked edges host a)))
unfolding add_linked_hosts has
has-add_linked_hosts edges host [] set a = ground arith
has-add_linked_hosts edges host (o ∷ others) set a =
    elim (Bool-cases (not (o == host) && linked edges host o)) [
      | inl e ↦ rw e (
          rw (has-add_linked_hosts edges host others (add set o) a)
            (rw (has-add set o a) (ground (arith, same, e))))
      | inr e ↦ rw e (rw (has-add_linked_hosts edges host others set a) (ground (arith, same, e)))
    ]
  where
    same :
        (o == a) ≡ true
        → (not (o == host) && linked edges host o) ≡ (not (a == host) && linked edges host a)
    same e = ap (λ x. not (x == host) && linked edges host x) ((eq_iff o a).0 e)

has_pair-append :
    (xs ys : List Combination) (h p : String)
    → has_pair (xs ++ ys) h p ≡ (has_pair xs h p || has_pair ys h p)
unfolding has_pair
has_pair-append [] ys h p = refl
has_pair-append (x ∷ xs) ys h p = ground (arith, has_pair-append xs ys h p)

has_pair-combinations_of :
    (edges : List Edge) (host : String) (peers : JsSet) (h p : String)
    → has_pair (combinations_of edges host peers) h p
      ≡ ((host == h) && (has peers p && has_edge edges h p))
unfolding has_pair combinations_of has
has_pair-combinations_of edges host [] h p = ground arith
has_pair-combinations_of edges host (x ∷ peers) h p = elim (Bool-cases (has_edge edges host x)) [
  | inl e ↦ rw e (ground (arith, has_pair-combinations_of edges host peers h p, same, e))
  | inr e ↦ rw e (ground (arith, has_pair-combinations_of edges host peers h p, same, e))
]
  where
    same : (host == h) ≡ true → (x == p) ≡ true → has_edge edges host x ≡ has_edge edges h p
    same e f = rw ((eq_iff host h).0 e, (eq_iff x p).0 f)

has_pair-combinations_from :
    (edges : List Edge) (sources targets : JsSet) (hosts : List String) (h p : String)
    → has_pair (combinations_from edges sources targets hosts) h p ≡ (
        has hosts h
        && (has_edge edges h p
            && (has targets p || (has sources p && (not (p == h) && linked edges h p)))))
unfolding combinations_from has
has_pair-combinations_from edges sources targets [] h p = unfold has_pair in refl
has_pair-combinations_from edges sources targets (x ∷ hosts) h p =
    has_pair-append (combinations_of edges x (add_linked_hosts edges x sources (from_list targets)))
      (combinations_from edges sources targets hosts) h p
    ∙ (rw
        (has_pair-combinations_of edges x (add_linked_hosts edges x sources (from_list targets)) h
          p)
        (rw (has_pair-combinations_from edges sources targets hosts h p) (
          rw (has-add_linked_hosts edges x sources (from_list targets) p)
            (rw (has-from_list targets p) (ground (arith, same))))))
  where
    same : (x == h) ≡ true → (not (p == x) && linked edges x p) ≡ (not (p == h) && linked edges h p)
    same e = ap (λ y. not (p == y) && linked edges y p) ((eq_iff x h).0 e)

-- The combinations of a set of sources and a set of targets pair a source with a peer exactly if there
-- is an edge from it to the peer, and the peer is a target or another source.
pub has_pair-get_targeted_combinations :
    (sources targets : JsSet) (edges : List Edge) (h p : String)
    → has_pair (get_targeted_combinations sources targets edges) h p ≡ (
        has sources h && (has_edge edges h p && (has targets p || (has sources p && not (p == h)))))
unfolding get_targeted_combinations
has_pair-get_targeted_combinations sources targets edges h p =
    has_pair-combinations_from edges sources targets sources h p
    ∙ ground (arith, linked_of_has_edge edges h p)
