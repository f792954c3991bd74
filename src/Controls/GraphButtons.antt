-- ===== src/Controls/GraphButtons.antt =====
-- web-ui/src/components/GraphControls.tsx: GraphControls and PingControls.
use tsymbiote.Prelude.{String, true, not, List, [], ◌∷◌, if◌then◌else◌}
use tsymbiote.Prelude.Decimal.{show}
use tsymbiote.Prelude.Dict.{Dict}
use tsymbiote.Constants.{layout_labels}
use tsymbiote.Dialogs.Duration.{parse_int}
use tsymbiote.PingCommand.{PingSettings, set_ping_count, set_ping_delay}
use tsymbiote.Keyboard.{Ui, handle_reset_key, handle_fit_key}
use tsymbiote.System.{start_ping}
use tsymbiote.System.Events.{ping_enabled}
use tsymbiote.Controls.{Control, button, input, select, Page, on_system}

abbrev ping_types : Dict String
ping_types = ("disco", "Disco") ∷ ("TSMP", "TSMP") ∷ ("ICMP", "ICMP") ∷ ("peerapi", "PeerAPI") ∷ []

module _ {T : Type 0} where
  abbrev on_ui : (Ui T → Ui T) → Page T → Page T
  on_ui f = on_system (λ s. record s { ui = f s.ui })

  abbrev on_settings : (PingSettings → PingSettings) → Page T → Page T
  on_settings f = on_system (λ s. record s { settings = f s.settings })

  unfoldable pub graph_controls : Page T → List (Control (Page T))
  graph_controls p =
      select p.system.ui.layout_type layout_labels (λ l. on_ui (λ u. record u { layout_type = l }))
      ∷ button "Reset" true (on_ui handle_reset_key)
      ∷ button "Fit To View" true (on_ui handle_fit_key)
      ∷ []

  unfoldable pub ping_settings_fields : Page T → List (Control (Page T))
  ping_settings_fields p =
      input (show p.system.settings.ping_count) (λ t. on_settings (set_ping_count (parse_int t)))
      ∷ select p.system.settings.ping_type ping_types
          (λ t. on_settings (λ s. record s { ping_type = t }))
      ∷ input (show p.system.settings.ping_delay) (λ t. on_settings (set_ping_delay (parse_int t)))
      ∷ []

  -- The button of the settings has an icon, with this title.
  unfoldable pub ping_controls : Page T → List (Control (Page T))
  unfolding ping_settings_fields
  ping_controls p =
      button (if p.system.ui.app.console.status_loading then "Loading..." else "Ping")
        (ping_enabled p.system) (on_system start_ping)
      ∷ button "Ping settings" true
          (λ q. record q { show_ping_settings = not q.show_ping_settings })
      ∷ (if p.show_ping_settings then ping_settings_fields p else [])
