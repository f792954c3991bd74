-- ===== src/Results/PeerTypes.antt =====
-- The types of web-ui/src/api.ts for peers, the status, DNS answers and pings, as tests on values.
use tsymbiote.Prelude.{String, Bool, not, ◌||◌, List, [], ◌∷◌, ◌==◌, if◌then◌else◌}
use tsymbiote.Prelude.JsSet.{has}
use tsymbiote.Js.{Js, truthy}
use tsymbiote.Js.Shapes.{
  is_boolean, is_number, is_string, is_any, optional, or_null, record_of, object_fits,
}
use tsymbiote.Results.Types.{strings, user_profile_field}

abbrev peer_texts : List String
peer_texts =
    "Created" ∷ "CurAddr" ∷ "DNSName" ∷ "HostName" ∷ "ID" ∷ "KeyExpiry" ∷ "LastHandshake"
    ∷ "LastSeen" ∷ "LastWrite" ∷ "NoFileSharingReason" ∷ "OS" ∷ "PeerRelay" ∷ "PublicKey" ∷ "Relay"
    ∷ []

abbrev peer_booleans : List String
peer_booleans =
    "Active" ∷ "ExitNode" ∷ "ExitNodeOption" ∷ "InEngine" ∷ "InMagicSock" ∷ "InNetworkMap"
    ∷ "Online" ∷ []

abbrev peer_lists : List String
peer_lists = "AllowedIPs" ∷ "PeerAPIURL" ∷ "PrimaryRoutes" ∷ "Tags" ∷ "TailscaleIPs" ∷ []

-- PeerNodeData
unfoldable pub peer_node_field : String → Js → Bool
unfolding has
peer_node_field k =
    if has peer_texts k
    then optional is_string
    else if has peer_booleans k
    then optional is_boolean
    else if has ("RxBytes" ∷ "TxBytes" ∷ "TaildropTarget" ∷ "UserID" ∷ []) k
    then optional is_number
    else if has peer_lists k
    then optional strings
    else if k == "Addrs"
    then optional (or_null strings)
    else if k == "CapMap"
    then optional (record_of is_any)
    else is_any

unfoldable pub tailnet_field : String → Js → Bool
unfolding has
tailnet_field k =
    if has ("Name" ∷ "MagicDNSSuffix" ∷ []) k
    then optional is_string
    else if k == "MagicDNSEnabled"
    then optional is_boolean
    else is_any

-- StatusData. It leaves open what a peer, a user and the node itself are: here a peer and the node
-- have the types that PeerNodeData gives to their fields, and a user those of a profile.
unfoldable pub status_field : String → Js → Bool
unfolding has tailnet_field peer_node_field user_profile_field
status_field k =
    if has ("Version" ∷ "BackendState" ∷ "MagicDNSSuffix" ∷ "AuthURL" ∷ []) k
    then optional is_string
    else if has ("TUN" ∷ "HaveNodeKey" ∷ []) k
    then optional is_boolean
    else if has ("Health" ∷ "TailscaleIPs" ∷ "CertDomains" ∷ []) k
    then optional strings
    else if k == "CurrentTailnet"
    then optional (object_fits tailnet_field)
    else if k == "Self"
    then optional (object_fits peer_node_field)
    else if k == "Peer"
    then optional (record_of (object_fits peer_node_field))
    else if k == "User"
    then optional (record_of (object_fits user_profile_field))
    else is_any

-- The header of a DNS answer, which QueryDNSResult leaves open
unfoldable pub dns_header_field : String → Js → Bool
unfolding has
dns_header_field k =
    if has ("name" ∷ "type" ∷ "class" ∷ "responseCode" ∷ []) k then optional is_string else is_any

-- QueryDNSResult
unfoldable pub query_dns_field : String → Js → Bool
unfolding has dns_header_field
query_dns_field k =
    if has ("host" ∷ "error" ∷ []) k
    then optional is_string
    else if k == "header"
    then optional (or_null (object_fits dns_header_field))
    else if has ("responses" ∷ "resolvers" ∷ []) k
    then optional (or_null strings)
    else is_any

-- One of the `results` of a ping, which PingResult leaves open
unfoldable pub ping_entry_field : String → Js → Bool
unfolding has
ping_entry_field k =
    if has
      ("error" ∷ "Err" ∷ "NodeName" ∷ "IP" ∷ "NodeIP" ∷ "Endpoint" ∷ "PeerRelay" ∷ "DERPRegionCode"
        ∷ "PeerAPIURL" ∷ [])
      k
    then optional is_string
    else if has ("DERPRegionID" ∷ "PeerAPIPort" ∷ "LatencySeconds" ∷ []) k
    then optional is_number
    else if k == "IsLocalIP"
    then optional is_boolean
    else is_any

-- A result, where there is one
unfoldable pub is_ping_entry : Js → Bool
unfolding ping_entry_field
is_ping_entry x = not (truthy x) || object_fits ping_entry_field x
