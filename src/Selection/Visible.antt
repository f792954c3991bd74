-- ===== src/Selection/Visible.antt =====
-- Which nodes the graph shows, and when selected hosts have a common edge.
use tsymbiote.Prelude.{
  String, ◌≡◌, refl, sym, ap, ◌∙◌, ◌↔◌, inl, inr, Bool, true, false, ◌&&◌, ◌||◌, false≢true, List,
  [], ◌∷◌, map, arith, ◌==◌, eq_iff, ltb, Bool-cases, length, filter, any,
}
use tsymbiote.Prelude.JsSet.{has}
use tsymbiote.Prelude.JsSet.Filter.{any_of_has, has_of_any}
use tsymbiote.Peers.{Node, Edge}
use tsymbiote.Selection.{
  Selection, filtered_nodes, linked, hosts_have_edges, selected_hosts_have_edges,
}

has_filtered :
    (p : Node → Bool) (q : String → Bool)
    → ((n : Node) → p n ≡ q n.id)
    → (ns : List Node) (a : String)
    → has (map (λ n. n.id) (filter p ns)) a ≡ (q a && has (map (λ n. n.id) ns) a)
unfolding has
has_filtered p q e [] a = ground arith
has_filtered p q e (n ∷ ns) a = ground (arith, has_filtered p q e ns a, e n, eq_iff n.id a, same)
  where
    same : (n.id == a) ≡ true → q n.id ≡ q a
    same h = ap q ((eq_iff n.id a).0 h)

-- A node is drawn exactly if it is a selected host, or it is a selected target while some host is
-- selected.
pub has-filtered_nodes :
    (s : Selection) (a : String)
    → has (map (λ n. n.id) (filtered_nodes s)) a ≡ (
        (has s.selected_hosts a || (has s.selected_targets a && ltb 0 (length s.selected_hosts)))
        && has (map (λ n. n.id) s.nodes) a)
unfolding filtered_nodes
has-filtered_nodes s a =
    has_filtered
      (λ n.
        has s.selected_hosts n.id
        || (has s.selected_targets n.id && ltb 0 (length s.selected_hosts)))
      (λ i. has s.selected_hosts i || (has s.selected_targets i && ltb 0 (length s.selected_hosts)))
      (λ n. refl) s.nodes a

-- Two members of the list at different places, the first `a`, with an edge one way or the other.
pub data LinkedPair (edges : List Edge) : List String → Type 0 where
  first :
      {h : String} {hs : List String} (b : String)
      → has hs b ≡ true
      → linked edges h b ≡ true
      → LinkedPair edges (h ∷ hs)
  later : {h : String} {hs : List String} → LinkedPair edges hs → LinkedPair edges (h ∷ hs)

pair_sound :
    (edges : List Edge) (hs : List String) → hosts_have_edges edges hs ≡ true → LinkedPair edges hs
unfolding hosts_have_edges
pair_sound edges [] h = absurd (ground (arith, h))
pair_sound edges (x ∷ hs) h = elim (Bool-cases (any (linked edges x) hs)) [
  | inl e ↦ let (b, i, l) = has_of_any (linked edges x) hs e in first b i l
  | inr e ↦ later (pair_sound edges hs (ground (arith, h, e)))
]

pair_complete :
    (edges : List Edge) {hs : List String} → LinkedPair edges hs → hosts_have_edges edges hs ≡ true
unfolding hosts_have_edges
pair_complete edges (first {h = x} {hs} b i l) =
    ground (arith, any_of_has (linked edges x) hs b i l)
pair_complete edges (later p) = ground (arith, pair_complete edges p)

too_few :
    (edges : List Edge) (hs : List String)
    → ltb (length hs) 2 ≡ true
    → hosts_have_edges edges hs ≡ false
unfolding hosts_have_edges
too_few edges [] h = refl
too_few edges (x ∷ []) h = refl
too_few edges (x ∷ y ∷ hs) h = absurd (ground arith)

-- The test that enables a ping without targets holds exactly if two of the selected hosts, at
-- different places of the set, have an edge one way or the other.
pub selected_hosts_have_edges_iff :
    (s : Selection) → (selected_hosts_have_edges s ≡ true) ↔ LinkedPair s.edges s.selected_hosts
unfolding selected_hosts_have_edges
selected_hosts_have_edges_iff s = elim (Bool-cases (ltb (length s.selected_hosts) 2)) [
  | inl e ↦ rw e (
    λ h. absurd (false≢true h),
    λ p. sym (too_few s.edges s.selected_hosts e) ∙ pair_complete s.edges p,
  )
  | inr e ↦ rw e (pair_sound s.edges s.selected_hosts, pair_complete s.edges)
]
