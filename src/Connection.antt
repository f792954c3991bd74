-- ===== src/Connection.antt =====
-- web-ui/src/utils/commandUtils.ts: which kind of connection a ping went over.
pub mod Kinds
use tsymbiote.Prelude.{ℕ, String, Bool, false, not, Option, none, some, ◌==◌, nat_eq, if◌then◌else◌}

-- EDGE_COLORS
abbrev pub edge_direct : String
edge_direct = "#22c55e"

abbrev pub edge_peer_api : String
edge_peer_api = "#3b82f6"

abbrev pub edge_peer_relay : String
edge_peer_relay = "#9333ea"

abbrev pub edge_derp : String
edge_derp = "#ea580c"

-- CONNECTION_BADGE_COLORS
abbrev pub badge_direct : String
badge_direct = "bg-green-600"

abbrev pub badge_peer_api : String
badge_peer_api = "bg-blue-600"

abbrev pub badge_peer_relay : String
badge_peer_relay = "bg-purple-600"

abbrev pub badge_derp : String
badge_derp = "bg-orange-600"

abbrev pub badge_unknown : String
badge_unknown = "bg-gray-600"

pub record ConnectionTypeInfo : Type 0 where
  pub label : String
  pub color : String
  pub edge_color : String

-- One entry of `results` of a ping, with the fields that the client tests; `none` is a field that
-- the answer leaves out.
pub record PingEntry : Type 0 where
  pub err : Option String
  pub peer_relay : Option String
  pub derp_region_id : Option ℕ
  pub peer_api_url : Option String

-- `x && x !== ''` and `x && x !== 0`
abbrev pub filled : Option String → Bool
filled none = false
filled (some s) = not (s == "")

abbrev pub nonzero : Option ℕ → Bool
nonzero none = false
nonzero (some n) = not (nat_eq n 0)

abbrev pub info : String → String → String → ConnectionTypeInfo
info l c e = record { label = l; color = c; edge_color = e }

-- getConnectionType; `none` is a missing result
unfoldable pub get_connection_type : Option PingEntry → ConnectionTypeInfo
get_connection_type none = info "unknown" badge_unknown edge_direct
get_connection_type (some r) =
    if filled r.peer_relay
    then info "peer-relay" badge_peer_relay edge_peer_relay
    else if nonzero r.derp_region_id
    then info "DERP" badge_derp edge_derp
    else if filled r.peer_api_url
    then info "peer-api" badge_peer_api edge_peer_api
    else info "direct" badge_direct edge_direct

-- getEdgeColorFromResult
unfoldable pub get_edge_color_from_result : Option PingEntry → String
unfolding get_connection_type
get_edge_color_from_result r = (get_connection_type r).edge_color
