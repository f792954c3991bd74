-- ===== src/Controls/Reached.antt =====
-- The page's controls and the events of the app.
use tsymbiote.Prelude.{
  ℕ, ◌≤◌, ◌≡◌, refl, String, Bool, true, false, arith, if◌then◌else◌, All, ◌and◌, All-append,
  All-Mem, All-if,
}
use mathlib.Core.List.{Memᴰ}
use tsymbiote.Prelude.JsSet.Filter.{has_of_filter, All-map}
use tsymbiote.Prelude.Dict.{keys}
use tsymbiote.Dialogs.{needs_duration}
use tsymbiote.Dialogs.Duration.{parse_int}
use tsymbiote.Panel.Heights as Heights
use tsymbiote.Selection.Consistency as Consistency
use tsymbiote.Sidebar.{filtered_hosts_for_display, filtered_targets_for_display}
use tsymbiote.Stream.Format.{Codec}
use tsymbiote.Loading.{Surroundings}
use tsymbiote.System.{
  status, prefs, drive_shares, dns_config, serve_config, app_conn_routes, System,
}
use tsymbiote.System.Events as Events
use tsymbiote.System.Events.{
  Event, Reach, next, command_enabled, stream_enabled, dns_enabled, pprof_enabled,
}
use tsymbiote.Controls.{Control, Use, Page, Browser}
use tsymbiote.Controls.Uses.{After, Use-After}
use tsymbiote.Controls.SidebarControls.{
  idle, silent, host_box, target_box, host_controls, target_controls, command_controls,
  sidebar_controls,
}
use tsymbiote.Controls.GraphButtons.{graph_controls, ping_settings_fields, ping_controls}
use tsymbiote.Controls.DialogFields.{
  on_page_console, pprof_type_of, query_dns_controls, pprof_fields, pprof_controls,
}
use tsymbiote.Controls.PanelFrame.{tab, panel_controls}
use tsymbiote.Controls.WholePage.{controls}

module _ {T : Type 0} (w : Surroundings) (c : Codec) (tallest : ℕ) (b : Browser) (p : Page T)
    (reached : Reach w c tallest p.system) where
  abbrev Good : Control (Page T) → Type 0
  Good = After (λ q. Reach w c tallest q.system) p

  by : {t : System T} → Event w c tallest p.system t → Reach w c tallest t
  by e = next reached e

  -- A handler that tests for itself.
  guarded :
      (test : Bool) (q : Page T)
      → (test ≡ true → Reach w c tallest q.system)
      → Reach w c tallest (if test then q else p).system
  guarded true q h = h refl
  guarded false q h = reached

  host_controls-Good : All Good (host_controls b p)
  unfolding host_controls host_box filtered_hosts_for_display
  host_controls-Good =
      (λ t. reached)
      and (λ e. by (Events.selects Consistency.all_hosts))
      and All-map Good (host_box b p) _
          λ i m. by (Events.selects (Consistency.host i (has_of_filter _ _ i m)))

  target_controls-Good : All Good (target_controls b p)
  unfolding target_controls target_box filtered_targets_for_display
  target_controls-Good =
      by (Events.selects Consistency.hide_offline)
      and (λ t. reached)
      and (λ e. by (Events.selects Consistency.all_targets))
      and All-map Good (target_box b p) _
          λ i m. by (Events.selects (Consistency.target i (has_of_filter _ _ i m)))

  module _ (is_open : p.system.sidebar_open ≡ true) where
    enabled : idle p.system ≡ true → command_enabled p.system ≡ true
    unfolding command_enabled
    enabled h = ground (arith, is_open, h)

    stream : silent p.system ≡ true → stream_enabled p.system ≡ true
    unfolding stream_enabled
    stream h = ground (arith, is_open, h)

    command_controls-Good : All Good (command_controls b p)
    unfolding command_controls
    command_controls-Good =
        (λ h. by (Events.command status (λ e. absurd (ground (arith, e))) (enabled h)))
        and (λ h. by (Events.open_query_dns (enabled h)))
        and (λ h. by (Events.open_pprof (enabled h)))
        and (λ h. by (Events.command prefs (λ e. absurd (ground (arith, e))) (enabled h)))
        and (λ h. by (Events.command drive_shares (λ e. absurd (ground (arith, e))) (enabled h)))
        and (λ h. by (Events.command dns_config (λ e. absurd (ground (arith, e))) (enabled h)))
        and (λ h. by (Events.command serve_config (λ e. absurd (ground (arith, e))) (enabled h)))
        and (λ h. by (Events.command app_conn_routes (λ e. absurd (ground (arith, e))) (enabled h)))
        and (λ h. by (Events.logs b.creates_socket (stream h)))
        and (λ h. by (Events.bus_events b.creates_socket (stream h)))
        and tt

  sidebar_controls-Good : All Good (sidebar_controls b p)
  unfolding sidebar_controls
  sidebar_controls-Good =
      (λ e. by Events.toggle_sidebar)
      and All-if Good p.system.sidebar_open _ (λ is_open.
        search (
          All-append Good,
          host_controls-Good,
          target_controls-Good,
          command_controls-Good is_open,
        ))

  graph_controls-Good : All Good (graph_controls p)
  unfolding graph_controls keys
  graph_controls-Good =
      (λ l m. by (Events.layout l m))
      and (λ e. by Events.reset_button)
      and (λ e. by Events.fit_button)
      and tt

  ping_controls-Good : All Good (ping_controls p)
  unfolding ping_controls ping_settings_fields
  ping_controls-Good =
      (λ e. by (Events.ping e))
      and (λ e. reached)
      and All-if Good p.show_ping_settings _ (λ shown.
        (λ t. by (Events.ping_count (parse_int t)))
        and (λ t m. by (Events.ping_type t))
        and (λ t. by (Events.ping_delay (parse_int t)))
        and tt)

  query_dns_controls-Good :
      p.system.ui.app.console.show_query_dns_modal ≡ true → All Good (query_dns_controls p)
  unfolding query_dns_controls dns_enabled
  query_dns_controls-Good shown =
      guarded _ _ (λ e. by (Events.query_dns (ground (arith, shown, e))))
      and (λ e. by Events.close_query_dns)
      and (λ t. by (Events.dns_name t))
      and (λ t m. by (Events.dns_query_type t))
      and (λ e. by Events.close_query_dns)
      and (λ e. by (Events.query_dns (ground (arith, shown, e))))
      and tt

  pprof_fields-Good : All Good (pprof_fields p)
  unfolding pprof_fields
  pprof_fields-Good =
      (λ t m. by (Events.pprof_type (pprof_type_of t)))
      and All-if Good (needs_duration p.system.ui.app.console.pprof_type) _ duration_field
    where
      duration_field :
          needs_duration p.system.ui.app.console.pprof_type ≡ true
          → ((t : String)
              → Reach w c tallest (on_page_console (λ d. record d { pprof_duration = t }) p).system)
            × Unit {0}
      duration_field needed = ((λ t. by (Events.pprof_duration t)), tt)

  pprof_controls-Good :
      p.system.ui.app.console.show_pprof_modal ≡ true → All Good (pprof_controls p)
  unfolding pprof_controls pprof_enabled
  pprof_controls-Good shown =
      guarded _ _ (λ e. by (Events.pprof (ground (arith, shown, e))))
      and (λ e. by Events.close_pprof)
      and All-append Good (pprof_fields p) _ pprof_fields-Good (
          (λ e. by Events.close_pprof)
          and (λ e. by (Events.pprof (ground (arith, shown, e))))
          and tt)

  module _ (inner_height : ℕ) (lo : 200 ≤ inner_height) (hi : inner_height ≤ tallest) where
    panel_controls-Good : All Good (panel_controls inner_height p)
    unfolding panel_controls tab
    panel_controls-Good =
        All-append Good _ _
          (All-if Good p.system.ui.app.stream.is_streaming _
            (λ on. (λ e. by (Events.cancel on)) and tt))
          (reached
            and (λ e. by (Events.panel inner_height lo hi Heights.toggled))
            and All-map Good tab _ (λ h m e. by (Events.output_tab h m)))

    controls-Good : All Good (controls b inner_height p)
    unfolding controls
    controls-Good =
        search
          (
            All-append Good,
            All-if Good,
            sidebar_controls-Good,
            graph_controls-Good,
            ping_controls-Good,
            panel_controls-Good,
            query_dns_controls-Good,
            pprof_controls-Good,
          )
          depth 20

-- Whatever control the user uses on a page whose app is in a reachable state, in a window of 200 to
-- `tallest` pixels, the app is in a reachable state again.
pub Use-Reach :
    {T : Type 0} (w : Surroundings) (c : Codec) (tallest : ℕ) (b : Browser) (inner_height : ℕ)
    {p q : Page T} {k : Control (Page T)}
    → 200 ≤ inner_height
    → inner_height ≤ tallest
    → Reach w c tallest p.system
    → Memᴰ k (controls b inner_height p)
    → Use p k q
    → Reach w c tallest q.system
Use-Reach w c tallest b inner_height {p} lo hi reached shown used =
    let good = controls-Good w c tallest b p reached inner_height lo hi in
    Use-After (λ q. Reach w c tallest q.system) used (All-Mem _ shown good)
