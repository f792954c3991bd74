-- ===== src/Results/PrefsView.antt =====
-- PrefsResultsContent
use tsymbiote.Prelude.{String, not}
use tsymbiote.Js.{Js, field, is_undefined}
use tsymbiote.Js.Jsx.{
  Ui, heading, label, show_one, ◌<>◌, show_if, need, Texts, child, when, when_some,
}
use tsymbiote.Results.{error_or_else, user_card}
use tsymbiote.Widgets.{status_badge, yes_no, list_section, tag_badges}

module _ (t : Texts) where
  -- TableRow
  unfoldable pub table_row : String → Ui → Ui
  table_row l u = show_one (label l) <> u

  unfoldable pub first_table : Js → Ui
  unfolding table_row
  first_table d =
      when t (field d "Hostname") (table_row "Hostname" (child t (field d "Hostname")))
      <> table_row "Want Running" (yes_no (field d "WantRunning"))
      <> table_row "Logged Out"
          (status_badge (field d "LoggedOut") "bg-red-600" "bg-gray-600" "Yes" "No")
      <> table_row "Route All" (yes_no (field d "RouteAll"))
      <> table_row "Corp DNS" (yes_no (field d "CorpDNS"))
      <> table_row "Run SSH" (yes_no (field d "RunSSH"))
      <> table_row "Run Web Client" (yes_no (field d "RunWebClient"))
      <> table_row "Shields Up" (yes_no (field d "ShieldsUp"))

  unfoldable pub second_table : Js → Ui
  unfolding table_row
  second_table d =
      table_row "No SNAT" (yes_no (field d "NoSNAT"))
      <> table_row "No Stateful Filtering" (yes_no (field d "NoStatefulFiltering"))
      <> show_if (not (is_undefined (field d "NetfilterMode")))
          (table_row "Netfilter Mode" (child t (field d "NetfilterMode")))
      <> table_row "Exit Node Allow LAN" (yes_no (field d "ExitNodeAllowLANAccess"))
      <> when t (field d "ExitNodeID") (table_row "Exit Node ID" (child t (field d "ExitNodeID")))
      <> when t (field d "OperatorUser")
          (table_row "Operator User" (child t (field d "OperatorUser")))
      <> when t (field d "AutoUpdate")
          (table_row "Auto Update Check" (yes_no (field (field d "AutoUpdate") "Check")))
      <> when t (field d "AppConnector") (
          table_row "App Connector" (
            status_badge (field (field d "AppConnector") "Advertise") "bg-green-600" "bg-gray-600"
              "Advertising" "Not Advertising"))

  unfoldable pub preferences : Js → Ui
  unfolding first_table second_table
  preferences d =
      show_one (heading "Preferences")
      <> first_table d
      <> second_table d
      <> when t (field d "ControlURL")
          (show_one (label "Control URL") <> child t (field d "ControlURL"))
      <> when t (field (field d "Persist") "NodeID")
          (show_one (label "Node ID") <> child t (field (field d "Persist") "NodeID"))
      <> when_some t (field d "AdvertiseRoutes")
          (list_section t "Advertise Routes" (field d "AdvertiseRoutes"))
      <> when_some t (field d "AdvertiseTags") (tag_badges t (field d "AdvertiseTags"))
      <> when t (field (field d "Persist") "UserProfile") (
          show_one (heading "User Profile")
          <> user_card t (field (field d "Persist") "UserProfile"))

  -- PrefsResultsContent
  unfoldable pub prefs_view : Js → Ui
  unfolding preferences
  prefs_view d = need d (error_or_else t d (preferences d))
