-- ===== src/Connection/Kinds.antt =====
-- The kinds of connection: how a label, a badge and an edge colour go together, and what the legend
-- under the graph calls them.
use tsymbiote.Prelude.{
  ◌≡◌, refl, sym, ap, ◌∙◌, ◌↔◌, inl, inr, String, true, none, some, arith, [], ◌∷◌, ◌==◌,
  if◌then◌else◌, Bool-cases,
}
use tsymbiote.Prelude.Dict.{Dict, get}
use tsymbiote.Connection.{
  PingEntry, filled, nonzero, info, ConnectionTypeInfo, get_connection_type,
  get_edge_color_from_result, edge_direct, edge_peer_api, edge_peer_relay, edge_derp, badge_direct,
  badge_peer_api, badge_peer_relay, badge_derp,
}

-- ConnectionLegend of web-ui/src/components/GraphControls.tsx: the name of each colour
abbrev pub connection_legend : Dict String
connection_legend =
    (edge_direct, "Direct")
    ∷ (edge_peer_api, "Peer API")
    ∷ (edge_peer_relay, "Peer Relay")
    ∷ (edge_derp, "DERP")
    ∷ []

-- How the legend writes the labels of the panel.
abbrev pub legend_names : Dict String
legend_names =
    ("direct", "Direct")
    ∷ ("peer-api", "Peer API")
    ∷ ("peer-relay", "Peer Relay")
    ∷ ("DERP", "DERP")
    ∷ []

data Kind : Type 0 where
  direct peer_api peer_relay derp : Kind

abbrev info_of : Kind → ConnectionTypeInfo
info_of direct = info "direct" badge_direct edge_direct
info_of peer_api = info "peer-api" badge_peer_api edge_peer_api
info_of peer_relay = info "peer-relay" badge_peer_relay edge_peer_relay
info_of derp = info "DERP" badge_derp edge_derp

kind_of : (r : PingEntry) → (k : Kind) × (get_connection_type (some r) ≡ info_of k)
unfolding get_connection_type
kind_of r = elim (Bool-cases (filled r.peer_relay)) [
  | inl p ↦ (peer_relay, rw p refl)
  | inr p ↦ elim (Bool-cases (nonzero r.derp_region_id)) [
    | inl q ↦ (derp, rw (p, q) refl)
    | inr q ↦ elim (Bool-cases (filled r.peer_api_url)) [
      | inl s ↦ (peer_api, rw (p, q, s) refl)
      | inr s ↦ (direct, rw (p, q, s) refl)
    ]
  ]
]

-- The kind by one of three texts that differ from each other and from the fourth.
by_text : (a b c : String) → String → Kind
by_text a b c t =
    if t == a then peer_api else if t == b then peer_relay else if t == c then derp else direct

abbrev by_color : String → Kind
by_color = by_text edge_peer_api edge_peer_relay edge_derp

abbrev by_label : String → Kind
by_label = by_text "peer-api" "peer-relay" "DERP"

abbrev by_badge : String → Kind
by_badge = by_text badge_peer_api badge_peer_relay badge_derp

by_color-info_of : (k : Kind) → by_color (info_of k).edge_color ≡ k
unfolding by_text
by_color-info_of direct = refl
by_color-info_of peer_api = refl
by_color-info_of peer_relay = refl
by_color-info_of derp = refl

by_label-info_of : (k : Kind) → by_label (info_of k).label ≡ k
unfolding by_text
by_label-info_of direct = refl
by_label-info_of peer_api = refl
by_label-info_of peer_relay = refl
by_label-info_of derp = refl

by_badge-info_of : (k : Kind) → by_badge (info_of k).color ≡ k
unfolding by_text
by_badge-info_of direct = refl
by_badge-info_of peer_api = refl
by_badge-info_of peer_relay = refl
by_badge-info_of derp = refl

-- Two texts of the kinds agree together if each tells the kind.
agree :
    (f g : Kind → String) (by_f by_g : String → Kind)
    → ((k : Kind) → by_f (f k) ≡ k)
    → ((k : Kind) → by_g (g k) ≡ k)
    → (j k : Kind) → (f j ≡ f k) ↔ (g j ≡ g k)
agree f g by_f by_g tell_f tell_g j k = (
  λ e. ap g (sym (tell_f j) ∙ ap by_f e ∙ tell_f k),
  λ e. ap f (sym (tell_g j) ∙ ap by_g e ∙ tell_g k),
)

in_legend :
    (k : Kind)
    → (name : String) × (get connection_legend (info_of k).edge_color ≡ some name)
      × (get legend_names (info_of k).label ≡ some name)
unfolding get
in_legend direct = ("Direct", refl, refl)
in_legend peer_api = ("Peer API", refl, refl)
in_legend peer_relay = ("Peer Relay", refl, refl)
in_legend derp = ("DERP", refl, refl)

edge_color-info :
    (r : PingEntry)
    → get_edge_color_from_result (some r) ≡ (get_connection_type (some r)).edge_color
unfolding get_edge_color_from_result
edge_color-info r = refl

-- Two pings colour their edges alike exactly if the panel shows them with the same label, and exactly if
-- it shows them with the same badge; and the legend under the graph has the colour of each, with the
-- name that goes with the label.
pub edge_colors_are_kinds :
    (r r' : PingEntry)
    → ((get_edge_color_from_result (some r) ≡ get_edge_color_from_result (some r'))
        ↔ ((get_connection_type (some r)).label ≡ (get_connection_type (some r')).label))
      × ((get_edge_color_from_result (some r) ≡ get_edge_color_from_result (some r'))
          ↔ ((get_connection_type (some r)).color ≡ (get_connection_type (some r')).color))
      × ((name : String) × (get connection_legend (get_edge_color_from_result (some r)) ≡ some name)
          × (get legend_names (get_connection_type (some r)).label ≡ some name))
edge_colors_are_kinds r r' =
    let (j, e) = kind_of r in
    let (k, f) = kind_of r' in
    rw (edge_color-info r, edge_color-info r', e, f)
      (
        agree (λ i. (info_of i).edge_color) (λ i. (info_of i).label) by_color by_label
            by_color-info_of by_label-info_of j k,
        agree (λ i. (info_of i).edge_color) (λ i. (info_of i).color) by_color by_badge
            by_color-info_of by_badge-info_of j k,
        in_legend j,
      )

-- A ping that failed, and so names no relay, region or peer API address, gives the edge the colour
-- of a direct connection.
pub failed_ping_is_direct :
    (r : PingEntry)
    → filled r.err ≡ true
    → r.peer_relay ≡ none
    → r.derp_region_id ≡ none
    → r.peer_api_url ≡ none
    → get_edge_color_from_result (some r) ≡ edge_direct
unfolding get_edge_color_from_result
failed_ping_is_direct r h p q s = ground arith
