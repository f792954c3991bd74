-- ===== src/Tests/Results.antt =====
-- What the views show of concrete results.
use tsymbiote.Prelude.{
  ◌<◌, ◌≡◌, refl, String, Option, some, none, true, false, false≢true, sym, ◌∙◌, List, [], ◌∷◌,
  ◌++◌, arith, length, get_elem?,
}
use tsymbiote.Prelude.Dict.{get, put}
use tsymbiote.Api.{HostResult, Body, Outcome, returned, array, profile}
use tsymbiote.Console.{Console, App, result, show_results, online_selected_hosts}
use tsymbiote.HostCommands.{host_command}
use tsymbiote.OutputPanel.{panel_view}
use tsymbiote.Stream.{initial_stream}
use tsymbiote.System.{dns_config, command_name}
use tsymbiote.Peers.{filter_online, is_online, online_node, find_node}
use tsymbiote.Js.{
  Js, undefined, null, bool, string, object, no_member, member, no_element, element, field, whole,
  entries, truthy,
}
use tsymbiote.Js.Shapes.{is_plain, optional, or_null, array_of, object_fits}
use tsymbiote.Widgets.{field_row}
use tsymbiote.Js.Jsx.{◌<>◌, when, child, Texts, label, heading, text}
use tsymbiote.Js.Returns.{Renders}
use tsymbiote.Results.Content.{Sources, content, output_value}
use tsymbiote.Results.Types.{dns_os_config_field}
use tsymbiote.Results.PeerTypes.{peer_node_field}
use tsymbiote.Results.DnsConfigView.{dns_config_view}
use tsymbiote.Results.AppConnView.{app_conn_routes_view}
use tsymbiote.Results.Exact as Exact
use tsymbiote.Results.Exact.{dns_config_view_lem}
use tsymbiote.Results.Missing.{app_conn_routes_view_throws}
use tsymbiote.Results.Rendered.Panel.{fits}
use tsymbiote.Results.Rendered.Command.{ItemFits, host_command-Renders}
use tsymbiote.ContextMenu.{initial_sections, toggle_section, identity_content, node_context_menu}
use tsymbiote.ContextMenu.Sections.{node_context_menu-toggle_twice}
use tsymbiote.ContextMenu.Shows.{node_context_menu-Renders}
use tsymbiote.Tests.Data.{selection}

-- Every value but a text is shown as "value".
abbrev texts : Texts
texts = record {
  string_text = λ x. elim x [ string s ↦ s | _ ↦ "value" ];
  bytes_text = λ x. "value";
  latency_text = λ x. "value";
  timestamp_text = λ x. "value";
  local_text = λ x. "value";
}

abbrev sources : Sources
sources = record {
  texts = texts;
  decoded = λ t. "text";
  json_text = λ x. "value";
  ping_value = λ d. undefined;
  profile = λ x. some [];
  profile_value = λ x h k. undefined;
  type_name = λ k. "profile";
}

abbrev config : Js
config = object (member "Nameservers" (Js.array (element (string "10.0.0.1") no_element)) no_member)

abbrev console_js : Console Js
console_js = record {
  status_loading = false;
  last_command = "";
  output_data = [];
  selected_output_host = none;
  status_panel_open = false;
  edge_colors = [];
  show_query_dns_modal = false;
  dns_name = "";
  dns_query_type = "A";
  show_pprof_modal = false;
  pprof_type = profile;
  pprof_duration = "30";
  alerts = [];
}

abbrev app_js : App Js
app_js = record { selection = selection; console = console_js; stream = initial_stream }

abbrev answer : List (HostResult Js)
answer = record { host = "h1"; error = none; result = some config } ∷ []

abbrev api : List String → Outcome (Body (HostResult Js))
api hs = returned (array answer)

abbrev no_error_js : Js → Option String
no_error_js v = none

is_selected : 0 < length (online_selected_hosts app_js)
unfolding online_selected_hosts filter_online is_online online_node find_node
is_selected = ground arith

config_fits :
    ItemFits sources result dns_config (record { host = "h1"; error = none; result = some config })
unfolding fits output_value object_fits dns_os_config_field array_of is_plain field optional
config_fits = λ _ _. refl

is_stored :
    get (host_command (command_name dns_config) result api app_js).console.output_data "h1"
    ≡ some (result (some config))
unfolding host_command online_selected_hosts filter_online is_online online_node find_node get put
    show_results
is_stored = refl

host_command-Renders_example : Renders (
    content sources (
      panel_view no_error_js true
        (record (host_command (command_name dns_config) result api app_js).console {
          selected_output_host = some "h1";
        })
        initial_stream))
host_command-Renders_example =
    host_command-Renders sources result dns_config api app_js answer no_error_js true initial_stream
      "h1" (result (some config)) is_selected refl (config_fits, tt) refl is_stored

abbrev no_list : Js
no_list = Js.array no_element

abbrev full_config : Js
full_config = object (
    member "Nameservers" (Js.array (element (string "10.0.0.1") no_element))
      (member "SearchDomains" no_list (member "MatchDomains" no_list no_member)))

full_config_fields :
    (field full_config "error" ≡ undefined)
    × (field full_config "Nameservers" ≡ Js.array (Exact.string_elements ("10.0.0.1" ∷ [])))
    × (field full_config "SearchDomains" ≡ Js.array (Exact.string_elements []))
    × (field full_config "MatchDomains" ≡ Js.array (Exact.string_elements []))
unfolding field Exact.string_elements
full_config_fields = (refl, refl, refl, refl)

dns_config_view_lem_example :
    dns_config_view texts full_config
    ≡ some (
        heading "DNS Configuration"
        ∷ (Exact.titled_list "Nameservers" "bg-blue-600" ("10.0.0.1" ∷ [])
            ++ (Exact.titled_list "Search Domains" "bg-green-600" []
                ++ Exact.titled_list "Match Domains" "bg-purple-600" [])))
dns_config_view_lem_example =
    dns_config_view_lem texts full_config ("10.0.0.1" ∷ []) [] [] refl full_config_fields.0
      full_config_fields.1 full_config_fields.2 full_config_fields.3

-- A domain of which no address is known
abbrev new_domain : Js
new_domain = object (member "Domains" (object (member "example.com" null no_member)) no_member)

new_domain_facts :
    (truthy (field new_domain "Domains") ≡ true)
    × (get_elem? (entries (field new_domain "Domains")) 0 ≡ some ("example.com", null))
unfolding field truthy entries
new_domain_facts = (refl, refl)

app_conn_routes_view_throws_example : app_conn_routes_view texts new_domain ≡ none
app_conn_routes_view_throws_example =
    app_conn_routes_view_throws texts new_domain 0 "example.com" null new_domain_facts.0
      new_domain_facts.1 refl

abbrev peer : Js
peer = object (
    member "HostName" (string "p1")
      (member "Addrs" null (member "Online" (bool true) (member "UserID" (whole 0) no_member))))

abbrev peer_node : Js
peer_node = object (member "label" (string "p1") (member "data" peer no_member))

peer_facts :
    (is_plain (field peer_node "label") ≡ true)
    × (object_fits peer_node_field (field peer_node "data") ≡ true)
    × (truthy (field (field peer_node "data") "Capabilities") ≡ false)
unfolding is_plain object_fits peer_node_field field truthy optional or_null
peer_facts = (refl, refl, refl)

node_context_menu-Renders_example :
    Renders (node_context_menu texts false initial_sections peer_node)
node_context_menu-Renders_example =
    node_context_menu-Renders texts false initial_sections peer_node refl peer_facts.0 peer_facts.1
      (λ h. absurd (false≢true (sym peer_facts.2 ∙ h)))

node_context_menu-toggle_twice_example :
    node_context_menu texts true
      (toggle_section (toggle_section initial_sections "status") "status")
      peer_node
    ≡ node_context_menu texts true initial_sections peer_node
node_context_menu-toggle_twice_example =
    node_context_menu-toggle_twice texts initial_sections "status" true peer_node

-- A user id of 0 is shown without its label.
user_id_zero :
    identity_content texts peer ≡ some (label "Hostname:" ∷ text "p1" ∷ text "value" ∷ [])
unfolding identity_content field truthy ◌<>◌ when field_row child
user_id_zero = refl
