-- ===== src/Results/Types.antt =====
-- The types of web-ui/src/api.ts for the results of the commands, as tests on values: what each
-- field has to be if it is there.
use tsymbiote.Prelude.{String, Bool, ◌||◌, List, [], ◌∷◌, ◌==◌, if◌then◌else◌}
use tsymbiote.Prelude.JsSet.{has}
use tsymbiote.Js.{Js}
use tsymbiote.Js.Shapes.{
  is_boolean, is_number, is_string, is_any, optional, or_null, array_of, record_of, object_fits,
}

-- string[]
abbrev pub strings : Js → Bool
strings x = array_of is_string x

unfoldable pub auto_update_field : String → Js → Bool
auto_update_field k =
    if k == "Apply"
    then optional (or_null is_boolean)
    else if k == "Check"
    then optional is_boolean
    else is_any

unfoldable pub app_connector_field : String → Js → Bool
app_connector_field k = if k == "Advertise" then optional is_boolean else is_any

unfoldable pub user_profile_field : String → Js → Bool
unfolding has
user_profile_field k =
    if has ("DisplayName" ∷ "LoginName" ∷ "ProfilePicURL" ∷ []) k
    then optional is_string
    else if k == "ID"
    then optional is_number
    else is_any

unfoldable pub persist_field : String → Js → Bool
unfolding user_profile_field
persist_field k =
    if k == "NodeID"
    then optional is_string
    else if k == "UserProfile"
    then optional (object_fits user_profile_field)
    else is_any

abbrev prefs_texts : List String
prefs_texts = "Hostname" ∷ "ControlURL" ∷ "ExitNodeID" ∷ []

abbrev prefs_booleans : List String
prefs_booleans =
    "CorpDNS" ∷ "ExitNodeAllowLANAccess" ∷ "ForceDaemon" ∷ "LoggedOut" ∷ "NoSNAT"
    ∷ "NoStatefulFiltering" ∷ "RouteAll" ∷ "RunSSH" ∷ "RunWebClient" ∷ "ShieldsUp" ∷ "WantRunning"
    ∷ []

-- PrefsData
unfoldable pub prefs_field : String → Js → Bool
unfolding has auto_update_field app_connector_field persist_field
prefs_field k =
    if has prefs_texts k
    then optional is_string
    else if has prefs_booleans k
    then optional is_boolean
    else if k == "NetfilterMode"
    then optional is_number
    else if k == "AdvertiseRoutes"
    then optional strings
    else if (k == "AdvertiseTags") || (k == "AdvertiseServices")
    then optional (or_null strings)
    else if k == "AutoUpdate"
    then optional (object_fits auto_update_field)
    else if k == "AppConnector"
    then optional (object_fits app_connector_field)
    else if k == "Persist"
    then optional (object_fits persist_field)
    else is_any

-- DNSOSConfig
unfoldable pub dns_os_config_field : String → Js → Bool
unfolding has
dns_os_config_field k =
    if has ("Nameservers" ∷ "SearchDomains" ∷ "MatchDomains" ∷ []) k
    then optional strings
    else is_any

-- DriveShare
unfoldable pub drive_share_field : String → Js → Bool
unfolding has
drive_share_field k =
    if has ("Name" ∷ "Path" ∷ "Who" ∷ "BookmarkData" ∷ []) k then optional is_string else is_any

-- { Shares?: DriveShare[] }
unfoldable pub drive_shares_field : String → Js → Bool
unfolding drive_share_field
drive_shares_field k =
    if k == "Shares" then optional (array_of (object_fits drive_share_field)) else is_any

-- TCPPortHandler
unfoldable pub tcp_port_handler_field : String → Js → Bool
unfolding has
tcp_port_handler_field k =
    if has ("HTTPS" ∷ "HTTP" ∷ []) k
    then optional is_boolean
    else if has ("TCPForward" ∷ "TerminateTLS" ∷ []) k
    then optional is_string
    else is_any

-- WebHandler
unfoldable pub web_handler_field : String → Js → Bool
unfolding has
web_handler_field k = if has ("Path" ∷ "Proxy" ∷ "Text" ∷ []) k then optional is_string else is_any

-- WebServerConfig
unfoldable pub web_server_config_field : String → Js → Bool
unfolding web_handler_field
web_server_config_field k =
    if k == "Handlers" then optional (record_of (object_fits web_handler_field)) else is_any

-- ServeConfig; what a service or a session configures is not shown, and not tested.
unfoldable pub serve_config_field : String → Js → Bool
unfolding has tcp_port_handler_field web_server_config_field
serve_config_field k =
    if k == "TCP"
    then optional (or_null (record_of (object_fits tcp_port_handler_field)))
    else if k == "Web"
    then optional (or_null (record_of (object_fits web_server_config_field)))
    else if has ("Services" ∷ "Foreground" ∷ []) k
    then optional (or_null (record_of is_any))
    else if k == "AllowFunnel"
    then optional (or_null (record_of is_boolean))
    else if k == "ETag"
    then optional is_string
    else is_any

-- RouteInfo
unfoldable pub route_info_field : String → Js → Bool
unfolding has
route_info_field k =
    if has ("Control" ∷ "Wildcards" ∷ []) k
    then optional (or_null strings)
    else if k == "Domains"
    then optional (or_null (record_of strings))
    else is_any
