-- ===== src/Results/PingView.antt =====
-- PingResultsContent
use tsymbiote.Prelude.{
  ℕ, String, not, ◌&&◌, ◌||◌, Option, none, some, List, ◌==◌, filter, length, nat_eq, if◌then◌else◌,
}
use tsymbiote.Js.{
  Js, undefined, number, string, array, Elements, no_element, element, field, truthy, is_undefined,
  is_positive, entries, or_js,
}
use tsymbiote.Js.Jsx.{
  Ui, heading, text, badge, show_one, ◌<>◌, show_if, need, Texts, child, when, each, each_entry,
}
use tsymbiote.Connection.{PingEntry, ConnectionTypeInfo, get_connection_type}
use tsymbiote.Widgets.{yes_no, row, field_row}
use tsymbiote.Results.{error_or_else}

-- The fields that getConnectionType reads, of their declared types
abbrev pub text_of : Js → Option String
text_of (string s) = some s
text_of x = none

abbrev pub digits_of : Js → Option ℕ
digits_of (number n) = some n.digits
digits_of x = none

unfoldable pub ping_entry : Js → Option PingEntry
ping_entry r =
    if truthy r
    then some (record {
      err = text_of (field r "Err");
      peer_relay = text_of (field r "PeerRelay");
      derp_region_id = digits_of (field r "DERPRegionID");
      peer_api_url = text_of (field r "PeerAPIURL");
    })
    else none

-- Array.isArray(peerData) ? peerData : [peerData]
unfoldable pub ping_results : Js → Elements
ping_results (array xs) = xs
ping_results x = element x no_element

-- pingResults[pingResults.length - 1]
unfoldable pub last_result : Elements → Js
last_result no_element = undefined
last_result (element x no_element) = x
last_result (element x (element y xs)) = last_result (element y xs)

-- peerEntries
unfoldable pub peer_entries : Js → List (String × Js)
peer_entries d = filter (λ e. not (e.0 == "error") && not (e.0 == "host")) (entries d)

unfoldable pub connection_badge : ConnectionTypeInfo → Ui
connection_badge c = show_one (badge c.color) <> show_one (text c.label)

module _ (t : Texts) where
  -- A field of a result, if it is truthy, and one that is shown if it is a positive number
  unfoldable pub result_row : String → Js → Ui
  result_row l x = when t x (field_row t l x)

  unfoldable pub positive_row : String → Js → Ui
  positive_row l x = show_if (not (is_undefined x) && is_positive x) (field_row t l x)

  unfoldable pub result_rows : Js → Ui
  unfolding result_row positive_row
  result_rows r =
      result_row "Node Name" (field r "NodeName")
      <> result_row "IP" (field r "IP")
      <> result_row "Node IP" (field r "NodeIP")
      <> result_row "Endpoint" (field r "Endpoint")
      <> result_row "Peer Relay" (field r "PeerRelay")
      <> result_row "DERP Region" (field r "DERPRegionCode")
      <> positive_row "DERP Region ID" (field r "DERPRegionID")
      <> result_row "Peer API URL" (field r "PeerAPIURL")
      <> positive_row "Peer API Port" (field r "PeerAPIPort")
      <> row "Is Local IP" (yes_no (field r "IsLocalIP"))

  unfoldable pub result_details : Js → Ui
  unfolding ping_entry connection_badge result_rows
  result_details r =
      connection_badge (get_connection_type (ping_entry r))
      <> when t (field r "IsLocalIP") (show_one (badge "bg-purple-600") <> show_one (text "Local"))
      <> show_if
          (not (is_undefined (field r "LatencySeconds")) && is_positive (field r "LatencySeconds"))
          (show_one (text (t.latency_text (field r "LatencySeconds"))))
      <> result_rows r

  -- One entry of a peer's results
  unfoldable pub result_entry : Js → Ui
  unfolding result_details
  result_entry r =
      if not (truthy r)
      then show_one (text "No data")
      else if truthy (field r "error") || truthy (field r "Err")
      then show_one (text "Error: ") <> child t (or_js (field r "error") (field r "Err"))
      else result_details r

  unfoldable pub peer_card : String → Js → Ui
  unfolding ping_results last_result ping_entry connection_badge result_entry
  peer_card peer x =
      show_one (heading peer)
      <> show_if (truthy (last_result (ping_results x)))
          (connection_badge (get_connection_type (ping_entry (last_result (ping_results x)))))
      <> each t (ping_results x) result_entry

  unfoldable pub peer_cards : List (String × Js) → Ui
  unfolding peer_card
  peer_cards es =
      if nat_eq (length es) 0
      then show_one (text "No ping results available.")
      else each_entry t es peer_card

  unfoldable pub ping_view : Js → Ui
  unfolding error_or_else peer_entries peer_cards
  ping_view d = need d (error_or_else t d (peer_cards (peer_entries d)))
