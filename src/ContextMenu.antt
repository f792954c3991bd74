-- ===== src/ContextMenu.antt =====
-- web-ui/src/components/ContextMenu.tsx: what a node's menu shows, and its sections, which open and
-- close.
pub mod Sections
pub mod Shows
use tsymbiote.Prelude.{
  ℕ, String, Bool, not, ◌||◌, List, [], ◌∷◌, map, length, nat_eq, if◌then◌else◌,
}
use tsymbiote.Prelude.JsSet.{JsSet, has, add, delete}
use tsymbiote.Js.{
  Js, string, array, Elements, no_element, element, field, or_js, is_undefined, entries, truthy,
  has_some,
}
use tsymbiote.Js.Jsx.{
  Ui, heading, label, text, show_one, ◌<>◌, show_if, need, Texts, child, when, when_some, when_keys,
}
use tsymbiote.Widgets.{status_badge, yes_no, row, field_row, list_section, tag_badges}

-- collapsedSections at first: all but the status
abbrev pub initial_sections : JsSet
initial_sections =
    "identity" ∷ "network" ∷ "exitnode" ∷ "tags" ∷ "traffic" ∷ "timestamps" ∷ "additional" ∷ []

-- toggleSection
unfoldable pub toggle_section : JsSet → String → JsSet
toggle_section collapsed s = if has collapsed s then delete collapsed s else add collapsed s

abbrev pub key_strings : List (String × Js) → Elements
key_strings [] = no_element
key_strings ((k, v) ∷ es) = element (string k) (key_strings es)

-- A section: its header, and its content unless it is collapsed
unfoldable pub section : JsSet → (title key : String) → Ui → Ui
section collapsed title key u = show_one (heading title) <> show_if (not (has collapsed key)) u

module _ (t : Texts) where
  -- {x && <FieldRow … value={x} />}
  unfoldable pub when_row : String → Js → Ui
  when_row l x = when t x (field_row t l x)

  -- {x && x.length > 0 && <ListSection … items={x} />}
  unfoldable pub when_list : String → Js → Ui
  when_list l x = when_some t x (list_section t l x)

  unfoldable pub time_row : String → Js → Ui
  time_row l x = when t x (field_row t l (string (t.local_text x)))

  unfoldable pub status_content : Js → Ui
  status_content n =
      row "Online" (status_badge (field n "Online") "bg-green-600" "bg-red-600" "Yes" "No")
      <> row "Active" (yes_no (field n "Active"))
      <> show_if (not (is_undefined (field n "hasSymbiote"))) (
          row "Has Symbiote"
            (status_badge (field n "hasSymbiote") "bg-purple-600" "bg-gray-600" "Yes" "No"))

  unfoldable pub identity_content : Js → Ui
  unfolding when_row
  identity_content n =
      when_row "Hostname" (field n "HostName")
      <> when_row "DNS Name" (field n "DNSName")
      <> when_row "OS" (field n "OS")
      <> when_row "User ID" (field n "UserID")
      <> when_row "ID" (field n "ID")
      <> when t (field n "PublicKey")
          (show_one (label "Public Key:") <> child t (field n "PublicKey"))

  unfoldable pub network_content : Js → Ui
  unfolding when_row when_list
  network_content n =
      when_list "Tailscale IPs" (field n "TailscaleIPs")
      <> when_list "Allowed IPs" (field n "AllowedIPs")
      <> when_list "Addresses" (field n "Addrs")
      <> when_row "Current Address" (field n "CurAddr")
      <> when_row "Relay" (field n "Relay")
      <> when_row "Peer Relay" (field n "PeerRelay")

  unfoldable pub exit_node_content : Js → Ui
  exit_node_content n =
      row "Exit Node" (yes_no (field n "ExitNode"))
      <> row "Exit Node Option" (yes_no (field n "ExitNodeOption"))

  unfoldable pub tags_content : Js → Ui
  unfolding when_list
  tags_content n =
      when_some t (field n "Tags") (tag_badges t (field n "Tags"))
      <> when_list "Primary Routes" (field n "PrimaryRoutes")

  unfoldable pub traffic_content : Js → Ui
  traffic_content n =
      show_if (not (is_undefined (field n "RxBytes")))
        (field_row t "Received" (string (t.bytes_text (field n "RxBytes"))))
      <> show_if (not (is_undefined (field n "TxBytes")))
          (field_row t "Sent" (string (t.bytes_text (field n "TxBytes"))))

  unfoldable pub timestamps_content : Js → Ui
  unfolding time_row
  timestamps_content n =
      time_row "Created" (field n "Created")
      <> time_row "Last Write" (field n "LastWrite")
      <> time_row "Last Seen" (field n "LastSeen")
      <> time_row "Last Handshake" (field n "LastHandshake")
      <> time_row "Key Expiry" (field n "KeyExpiry")

  unfoldable pub additional_content : Js → Ui
  unfolding when_row when_list
  additional_content n =
      when_list "Peer API URLs" (field n "PeerAPIURL")
      <> when_list "Capabilities" (field n "Capabilities")
      <> when_keys t (field n "CapMap")
          (list_section t "Capability Map" (array (key_strings (entries (field n "CapMap")))))
      <> row "In Network Map" (yes_no (field n "InNetworkMap"))
      <> row "In Magic Sock" (yes_no (field n "InMagicSock"))
      <> row "In Engine" (yes_no (field n "InEngine"))
      <> show_if (not (is_undefined (field n "TaildropTarget")))
          (field_row t "Taildrop Target" (field n "TaildropTarget"))
      <> when_row "No File Sharing Reason" (field n "NoFileSharingReason")

  -- The sections that depend on the node
  unfoldable pub exit_node_section : JsSet → Js → Ui
  unfolding section exit_node_content
  exit_node_section c n =
      when t (or_js (field n "ExitNode") (field n "ExitNodeOption"))
        (section c "Exit Node" "exitnode" (exit_node_content n))

  unfoldable pub traffic_section : JsSet → Js → Ui
  unfolding section traffic_content
  traffic_section c n =
      show_if (not (is_undefined (field n "RxBytes")) || not (is_undefined (field n "TxBytes")))
        (section c "Traffic" "traffic" (traffic_content n))

  -- {((a && a.length > 0) || (b && b.length > 0)) && …}: where a does not count, b decides, and is
  -- shown itself if it is falsy.
  unfoldable pub tags_section : JsSet → Js → Ui
  unfolding section tags_content
  tags_section c n =
      if has_some (field n "Tags")
      then section c "Tags & Routes" "tags" (tags_content n)
      else when_some t (field n "PrimaryRoutes") (section c "Tags & Routes" "tags" (tags_content n))

  unfoldable pub node_sections : JsSet → Js → Ui
  unfolding section status_content identity_content network_content exit_node_section tags_section
      traffic_section timestamps_content additional_content
  node_sections c n =
      section c "Status" "status" (status_content n)
      <> section c "Identity" "identity" (identity_content n)
      <> section c "Network" "network" (network_content n)
      <> exit_node_section c n
      <> tags_section c n
      <> traffic_section c n
      <> section c "Timestamps" "timestamps" (timestamps_content n)
      <> section c "Additional" "additional" (additional_content n)

  -- NodeContextMenu; `is_host` is whether it is given onFilterToHost
  unfoldable pub node_context_menu : (is_host : Bool) → JsSet → Js → Ui
  unfolding node_sections
  node_context_menu is_host c d = need d (
      child t (field d "label")
      <> show_if is_host (show_one (text "Filter To Host"))
      <> need (field d "data") (node_sections c (field d "data")))
