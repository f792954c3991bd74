-- ===== src/Ping/Grouping.antt =====
-- The request's arguments carry the combinations, grouped by host.
use tsymbiote.Prelude.{
  String, ◌≡◌, sym, ◌∙◌, inl, inr, ◌&&◌, ◌||◌, List, [], ◌∷◌, ◌++◌, arith, ◌==◌, eq_iff,
  if◌then◌else◌, Bool-cases,
}
use mathlib.Core.List.{append-nil, append_assoc}
use tsymbiote.Prelude.JsSet.{has, has-append}
use tsymbiote.Ping.Combinations.{has_pair}
use tsymbiote.Ping.Results.{asks}
use tsymbiote.Prelude.Dict.{Dict, get, put, get-put}
use tsymbiote.Ping.{Combination, or_empty, group_from, host_targets_map}

-- The peers of one host, in the order of the combinations.
unfoldable pub peers_of : List Combination → String → List String
peers_of [] h = []
peers_of (c ∷ cs) h = let rest = peers_of cs h in if c.host_id == h then c.peer_id ∷ rest else rest

get-group_from :
    (m : Dict (List String)) (cs : List Combination) (h : String)
    → or_empty (get (group_from m cs) h) ≡ or_empty (get m h) ++ peers_of cs h
unfolding group_from peers_of
get-group_from m [] h = sym (append-nil _)
get-group_from m (c ∷ cs) h =
    get-group_from (put m c.host_id (or_empty (get m c.host_id) ++ c.peer_id ∷ [])) cs h
    ∙ rw (get-put m c.host_id h (or_empty (get m c.host_id) ++ c.peer_id ∷ []))
        (elim (Bool-cases (c.host_id == h)) [
          | inl e ↦ rw e (rw ((eq_iff c.host_id h).0 e) (rw append_assoc))
          | inr e ↦ rw e
        ])

-- Each host is asked to ping exactly the peers that the combinations give it, in their order.
pub get-host_targets_map :
    (cs : List Combination) (h : String) → or_empty (get (host_targets_map cs) h) ≡ peers_of cs h
unfolding host_targets_map
get-host_targets_map cs h = unfold get in get-group_from [] cs h

asks-push :
    (m : Dict (List String)) (k p h t : String)
    → asks (put m k (or_empty (get m k) ++ p ∷ [])) h t ≡ (asks m h t || ((k == h) && (p == t)))
unfolding asks put get
asks-push [] k p h t = unfold has in ground arith
asks-push ((j, ts) ∷ m) k p h t = elim (Bool-cases (j == k)) [
  | inl e ↦
      rw e (rw (has-append ts (p ∷ []) t) (rw ((eq_iff j k).0 e) (unfold has in ground arith)))
  | inr e ↦ rw e (ground (arith, asks-push m k p h t))
]

asks-group_from :
    (m : Dict (List String)) (cs : List Combination) (h t : String)
    → asks (group_from m cs) h t ≡ (asks m h t || has_pair cs h t)
unfolding group_from has_pair
asks-group_from m [] h t = ground arith
asks-group_from m (c ∷ cs) h t =
    asks-group_from (put m c.host_id (or_empty (get m c.host_id) ++ c.peer_id ∷ [])) cs h t
    ∙ rw (asks-push m c.host_id c.peer_id h t) (ground arith)

-- The grouped request asks for exactly the combinations.
pub asks-host_targets_map :
    (cs : List Combination) (h t : String) → asks (host_targets_map cs) h t ≡ has_pair cs h t
unfolding host_targets_map
asks-host_targets_map cs h t = unfold asks in asks-group_from [] cs h t
