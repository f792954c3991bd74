-- ===== src/Controls/WholePage.antt =====
-- The controls on the page of web-ui/src/App.tsx, but for the graph and its menu, the content of the
-- output panel, and the handle that resizes it.
use tsymbiote.Prelude.{ℕ, List, [], ◌++◌, if◌then◌else◌}
use tsymbiote.Controls.{Control, Page, Browser}
use tsymbiote.Controls.SidebarControls.{sidebar_controls}
use tsymbiote.Controls.GraphButtons.{graph_controls, ping_controls}
use tsymbiote.Controls.DialogFields.{query_dns_controls, pprof_controls}
use tsymbiote.Controls.PanelFrame.{panel_controls}

unfoldable pub controls : {T : Type 0} → Browser → ℕ → Page T → List (Control (Page T))
unfolding sidebar_controls graph_controls ping_controls panel_controls query_dns_controls
    pprof_controls
controls b inner_height p =
    sidebar_controls b p
    ++ graph_controls p
    ++ ping_controls p
    ++ (if p.system.ui.app.console.status_panel_open then panel_controls inner_height p else [])
    ++ (if p.system.ui.app.console.show_query_dns_modal then query_dns_controls p else [])
    ++ (if p.system.ui.app.console.show_pprof_modal then pprof_controls p else [])
