-- ===== src/Controls/SidebarControls.antt =====
-- web-ui/src/components/SidebarPanel.tsx.
use tsymbiote.Prelude.{
  String, Bool, true, not, ◌||◌, List, [], ◌∷◌, ◌++◌, map, nat_eq, length, if◌then◌else◌,
}
use tsymbiote.Prelude.JsSet.{has}
use tsymbiote.Selection.{
  Selection, toggle_host, toggle_all_hosts, toggle_target, toggle_all_targets, toggle_hide_offline,
}
use tsymbiote.Sidebar.{
  filtered_hosts_for_display, filtered_targets_for_display, hosts_label, targets_label,
  targets_enabled,
}
use tsymbiote.HostCommands.{fetch_logs, fetch_bus_events}
use tsymbiote.System.{
  status, prefs, drive_shares, dns_config, serve_config, app_conn_routes, System, on_app,
  start_command,
}
use tsymbiote.System.Events.{with_selection, set_console}
use tsymbiote.Controls.{Control, button, checkbox, input, Page, Browser, on_system}

abbrev shown_id : Browser → String → String
shown_id b i = if b.redact_node_titles then "*****" else i

module _ {T : Type 0} where
  -- selectedHosts.size === 0 || statusLoading, and || isStreaming
  abbrev pub idle : System T → Bool
  idle s =
      not (nat_eq (length s.ui.app.selection.selected_hosts) 0 || s.ui.app.console.status_loading)

  abbrev pub silent : System T → Bool
  silent s =
      not (nat_eq (length s.ui.app.selection.selected_hosts) 0 || s.ui.app.stream.is_streaming)

module _ {T : Type 0} (b : Browser) where
  abbrev selection : Page T → Selection
  selection p = p.system.ui.app.selection

  abbrev select_by : (Selection → Selection) → Page T → Page T
  select_by f p = on_system (with_selection (f (selection p))) p

  unfoldable pub host_box : Page T → String → Control (Page T)
  host_box p i =
      checkbox (shown_id b i) (has (selection p).selected_hosts i) (select_by (toggle_host i))

  unfoldable pub target_box : Page T → String → Control (Page T)
  target_box p i =
      checkbox (shown_id b i) (has (selection p).selected_targets i) (select_by (toggle_target i))

  -- the "Hosts" and the "Peers" section
  unfoldable pub host_controls : Page T → List (Control (Page T))
  unfolding host_box
  host_controls p =
      input p.host_search_filter (λ t q. record q { host_search_filter = t })
      ∷ button (hosts_label (selection p)) true (select_by toggle_all_hosts)
      ∷ map (host_box p) (filtered_hosts_for_display b.lower p.host_search_filter (selection p))

  unfoldable pub target_controls : Page T → List (Control (Page T))
  unfolding target_box
  target_controls p =
      checkbox "Hide Offline" (selection p).hide_offline_peers (select_by toggle_hide_offline)
      ∷ input p.target_search_filter (λ t q. record q { target_search_filter = t })
      ∷ button (targets_label (selection p)) (targets_enabled (selection p))
          (select_by toggle_all_targets)
      ∷ map (target_box p)
          (filtered_targets_for_display b.lower p.target_search_filter (selection p))

  abbrev command_button : Page T → String → (System T → System T) → Control (Page T)
  command_button p text f = button text (idle p.system) (on_system f)

  unfoldable pub command_controls : Page T → List (Control (Page T))
  command_controls p =
      command_button p (if p.system.ui.app.console.status_loading then "Loading..." else "Status")
        (start_command status)
      ∷ command_button p "Query DNS" (set_console (λ c. record c { show_query_dns_modal = true }))
      ∷ command_button p "Pprof" (set_console (λ c. record c { show_pprof_modal = true }))
      ∷ command_button p "Prefs" (start_command prefs)
      ∷ command_button p "Drive Shares" (start_command drive_shares)
      ∷ command_button p "DNS Config" (start_command dns_config)
      ∷ command_button p "Serve Config" (start_command serve_config)
      ∷ command_button p "AppConn Routes" (start_command app_conn_routes)
      ∷ button "Logs" (silent p.system) (on_system (on_app (fetch_logs b.creates_socket)))
      ∷ button "Bus Events" (silent p.system)
          (on_system (on_app (fetch_bus_events b.creates_socket)))
      ∷ []

  -- The first button has an icon only.
  unfoldable pub sidebar_controls : Page T → List (Control (Page T))
  unfolding host_controls target_controls command_controls
  sidebar_controls p =
      button "" true (on_system (λ s. record s { sidebar_open = not s.sidebar_open }))
      ∷ (if p.system.sidebar_open
          then host_controls p ++ target_controls p ++ command_controls p
          else [])
