-- ===== src/Controls/PanelFrame.antt =====
-- The frame of web-ui/src/components/CommandOutputsPanel.tsx: the title, the buttons and the tabs
-- around the content. `inner_height` is the height of the window.
use tsymbiote.Prelude.{
  ℕ, String, ◌+++◌, true, not, some, List, [], ◌∷◌, ◌++◌, ◌==◌, map, if◌then◌else◌,
}
use tsymbiote.Prelude.Dict.{keys}
use tsymbiote.Panel.{is_minimized, toggle_minimize_panel}
use tsymbiote.Stream.{cancel_streaming}
use tsymbiote.System.Events.{with_stream, set_console}
use tsymbiote.Controls.{Control, button, checkbox, Page, on_system}

module _ {T : Type 0} where
  unfoldable pub panel_title : Page T → String
  panel_title p =
      if p.system.ui.app.console.last_command == ""
      then "Command Outputs"
      else "Command Outputs- " +++ p.system.ui.app.console.last_command

  unfoldable pub tab : String → Control (Page T)
  tab h = button h true (on_system (set_console (λ c. record c { selected_output_host = some h })))

  unfoldable pub panel_controls : ℕ → Page T → List (Control (Page T))
  unfolding tab
  panel_controls inner_height p =
      (if p.system.ui.app.stream.is_streaming
        then button "Cancel" true
            (on_system (λ s. with_stream (cancel_streaming true s.ui.app.stream) s))
          ∷ []
        else [])
      ++ checkbox "Raw JSON" p.show_raw_json (λ q. record q { show_raw_json = not q.show_raw_json })
        ∷ button (if is_minimized p.system.ui.panel then "Restore panel" else "Minimize panel") true
            (on_system (λ s. record s {
              ui = record s.ui { panel = toggle_minimize_panel inner_height s.ui.panel };
            }))
        ∷ map tab (keys p.system.ui.app.console.output_data)
