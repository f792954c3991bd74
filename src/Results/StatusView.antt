-- ===== src/Results/StatusView.antt =====
-- StatusResultsContent
use tsymbiote.Prelude.{true, String, not, length, if◌then◌else◌}
use tsymbiote.Js.{Js, bool, string, whole, field, is_text, or_js, entries}
use tsymbiote.Js.Jsx.{
  Ui, heading, text, badge, show_one, ◌<>◌, show_if, need, Texts, child, when, when_some, when_keys,
  map_each, each_entry,
}
use tsymbiote.Widgets.{status_badge, row, field_row, list_section, tag_badges}
use tsymbiote.Results.{error_or_else, user_card}

module _ (t : Texts) where
  -- {x && <FieldRow … value={x} />}
  unfoldable pub when_row : String → Js → Ui
  when_row l x = when t x (field_row t l x)

  -- The title of a table with the number of its entries
  unfoldable pub counted_title : String → Js → Ui
  counted_title title x =
      show_one (heading title)
      <> show_one (text "(")
      <> child t (whole (length (entries x)))
      <> show_one (text ")")

  unfoldable pub overview : Js → Ui
  overview d =
      field_row t "Version" (or_js (field d "Version") (string "N/A"))
      <> row "Backend State" (
          show_one (
            badge
              (if is_text (field d "BackendState") "Running" then "bg-green-500" else "bg-red-500"))
          <> child t (or_js (field d "BackendState") (string "Unknown")))
      <> row "TUN" (status_badge (field d "TUN") "bg-green-600" "bg-gray-600" "Enabled" "Disabled")
      <> field_row t "Tailnet" (or_js (field (field d "CurrentTailnet") "Name") (string "N/A"))
      <> row "MagicDNS" (
          status_badge (field (field d "CurrentTailnet") "MagicDNSEnabled") "bg-green-600"
            "bg-gray-600" "Enabled" "Disabled")
      <> field_row t "MagicDNS Suffix" (or_js (field d "MagicDNSSuffix") (string "N/A"))
      <> when_some t (field d "CertDomains") (list_section t "Cert Domains" (field d "CertDomains"))

  unfoldable pub health_warnings : Js → Ui
  health_warnings d = when_some t (field d "Health") (
      show_one (heading "Health Warnings")
      <> map_each t (field d "Health") (λ w. show_one (text "• ") <> child t w))

  unfoldable pub self_rows : Js → Ui
  unfolding when_row
  self_rows s =
      field_row t "Hostname" (field s "HostName")
      <> field_row t "DNS Name" (field s "DNSName")
      <> field_row t "OS" (field s "OS")
      <> row "Status"
          (status_badge (field s "Online") "bg-green-600" "bg-red-600" "Online" "Offline")
      <> when_row "DERP Relay" (field s "Relay")
      <> when_row "Node ID" (field s "ID")
      <> when_some t (field s "TailscaleIPs")
          (list_section t "Tailscale IPs" (field s "TailscaleIPs"))
      <> when_some t (field s "Tags") (tag_badges t (field s "Tags"))

  unfoldable pub self_traffic : Js → Ui
  self_traffic s =
      field_row t "Data Sent" (string (t.bytes_text (or_js (field s "TxBytes") (whole 0))))
      <> field_row t "Data Received" (string (t.bytes_text (or_js (field s "RxBytes") (whole 0))))
      <> field_row t "Created" (string (t.timestamp_text (field s "Created")))
      <> field_row t "Last Write" (string (t.timestamp_text (field s "LastWrite")))
      <> when t (or_js (field s "ExitNode") (field s "ExitNodeOption")) (
          when t (field s "ExitNode")
            (status_badge (bool true) "bg-green-600" "bg-gray-600" "Exit Node" "No")
          <> when t (field s "ExitNodeOption")
              (status_badge (bool true) "bg-blue-600" "bg-gray-600" "Exit Node Option" "No"))

  unfoldable pub users_box : Js → Ui
  unfolding counted_title
  users_box x = when_keys t x (
      counted_title "Users" x
      <> each_entry t (entries x) (λ (k : String) (u : Js). need u (user_card t u)))

  unfoldable pub peer_rows : Js → Ui
  unfolding when_row
  peer_rows p =
      field_row t "OS" (field p "OS")
      <> when_row "Relay" (field p "Relay")
      <> when_row "Direct" (field p "CurAddr")
      <> field_row t "Last Seen" (string (t.timestamp_text (field p "LastSeen")))
      <> when t (field p "LastHandshake") (
          show_if (not (is_text (field p "LastHandshake") "0001-01-01T00:00:00Z"))
            (field_row t "Handshake" (string (t.timestamp_text (field p "LastHandshake")))))
      <> field_row t "TX" (string (t.bytes_text (or_js (field p "TxBytes") (whole 0))))
      <> field_row t "RX" (string (t.bytes_text (or_js (field p "RxBytes") (whole 0))))
      <> when t (field p "KeyExpiry")
          (field_row t "Key Expiry" (string (t.timestamp_text (field p "KeyExpiry"))))

  unfoldable pub peer_box : Js → Ui
  unfolding peer_rows
  peer_box p = need p (
      child t (field p "HostName")
      <> child t (field p "DNSName")
      <> status_badge (field p "Online") "bg-green-600" "bg-gray-600" "Online" "Offline"
      <> when t (field p "Active")
          (status_badge (bool true) "bg-blue-600" "bg-gray-600" "Active" "No")
      <> peer_rows p
      <> when_some t (field p "TailscaleIPs") (list_section t "IPs" (field p "TailscaleIPs"))
      <> when_some t (field p "Tags") (tag_badges t (field p "Tags"))
      <> when_some t (field p "PrimaryRoutes") (list_section t "Routes" (field p "PrimaryRoutes")))

  unfoldable pub peers_box : Js → Ui
  unfolding counted_title peer_box
  peers_box x =
      when_keys t x
        (counted_title "Peers" x <> each_entry t (entries x) (λ (k : String) (p : Js). peer_box p))

  unfoldable pub status_sections : Js → Ui
  unfolding overview health_warnings self_rows self_traffic users_box peers_box
  status_sections d =
      show_one (heading "Overview")
      <> overview d
      <> health_warnings d
      <> when t (field d "Self") (self_rows (field d "Self") <> self_traffic (field d "Self"))
      <> users_box (field d "User")
      <> peers_box (field d "Peer")

  unfoldable pub status_view : Js → Ui
  unfolding error_or_else status_sections
  status_view d = need d (error_or_else t d (status_sections d))
