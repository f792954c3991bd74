-- ===== src/Controls/Commands.antt =====
-- The buttons of the commands: what each is called, and what the panel is called after it.
use tsymbiote.Prelude.{
  ℕ, ◌≡◌, ◌≢◌, refl, ◌∙◌, String, ◌+++◌, Bool, true, false, List, [], arith, ◌==◌, Bool-cases, inl,
  inr, if◌then◌else◌,
}
use mathlib.Core.List.{Memᴰ}
use mathlib.Core.List.Memᴰ.{head, tail, append_left, append_right}
use tsymbiote.Console.{begin}
use tsymbiote.System.{
  Command, status, prefs, drive_shares, dns_config, serve_config, app_conn_routes, goroutines,
  command_name, System, send, start_command, some_online,
}
use tsymbiote.System.Events.{command_enabled}
use tsymbiote.Controls.{Control, button, Page, Browser, on_system}
use tsymbiote.Controls.SidebarControls.{idle, command_controls, sidebar_controls}
use tsymbiote.Controls.PanelFrame.{panel_title}
use tsymbiote.Controls.WholePage.{controls}

member_if :
    {A : Type 0} {x : A} {shown : Bool} {xs : List A}
    → shown ≡ true
    → Memᴰ x xs
    → Memᴰ x (if shown then xs else [])
member_if e m = rw e m

not_empty : (k : Command) → (command_name k == "") ≡ false
unfolding command_name
not_empty status = refl
not_empty prefs = refl
not_empty drive_shares = refl
not_empty dns_config = refl
not_empty serve_config = refl
not_empty app_conn_routes = refl
not_empty goroutines = refl

module _ {T : Type 0} (b : Browser) (p : Page T) where
  abbrev starts : Command → Control (Page T)
  starts k = button (command_name k) true (on_system (start_command k))

  ready : command_enabled p.system ≡ true → idle p.system ≡ true
  unfolding command_enabled
  ready e = ground (arith, e)

  if_enabled :
      {text : String} {f : Page T → Page T} {enabled : Bool}
      → enabled ≡ true
      → button text true f ≡ button text enabled f
  if_enabled e = rw e refl

  status_first :
      command_enabled p.system ≡ true
      → starts status
        ≡ button
            (if p.system.ui.app.console.status_loading then "Loading..." else "Status")
            (idle p.system)
            (on_system (start_command status))
  unfolding command_name command_enabled
  status_first e =
      let not_loading : p.system.ui.app.console.status_loading ≡ false = ground (arith, e) in
      if_enabled (ready e) ∙ rw not_loading refl

  among_commands :
      (k : Command)
      → k ≢ goroutines
      → command_enabled p.system ≡ true
      → Memᴰ (starts k) (command_controls b p)
  unfolding command_controls command_name
  among_commands status n e = head (status_first e)
  among_commands prefs n e = tail (tail (tail (head (if_enabled (ready e)))))
  among_commands drive_shares n e = tail (tail (tail (tail (head (if_enabled (ready e))))))
  among_commands dns_config n e = tail (tail (tail (tail (tail (head (if_enabled (ready e)))))))
  among_commands serve_config n e =
      tail (tail (tail (tail (tail (tail (head (if_enabled (ready e))))))))
  among_commands app_conn_routes n e =
      tail (tail (tail (tail (tail (tail (tail (head (if_enabled (ready e)))))))))
  among_commands goroutines n e = absurd (n refl)

  among_sidebar :
      (k : Control (Page T))
      → p.system.sidebar_open ≡ true
      → Memᴰ k (command_controls b p)
      → Memᴰ k (sidebar_controls b p)
  unfolding sidebar_controls
  among_sidebar k e m = search (tail, member_if e, append_right, m) depth 10

  on_page :
      (inner_height : ℕ) (k : Control (Page T))
      → Memᴰ k (sidebar_controls b p)
      → Memᴰ k (controls b inner_height p)
  unfolding controls
  on_page inner_height k m = search (append_left, m)

module _ {T : Type 0} where
  start_command-last_command :
      (k : Command) (s : System T)
      → (start_command k s).ui.app.console.last_command ≡ command_name k
  unfolding start_command send begin
  start_command-last_command k s = elim (Bool-cases (some_online s)) [
    | inl e ↦ rw e refl
    | inr e ↦ rw e refl
  ]

  start_command-panel_title :
      (k : Command) (p : Page T)
      → panel_title (on_system (start_command k) p) ≡ "Command Outputs- " +++ command_name k
  unfolding panel_title
  start_command-panel_title k p = rw (start_command-last_command k p.system, not_empty k) refl

-- While the commands can be used, each of them but the goroutines, which are a type of profile, has a
-- button on the page that can be pressed, reads as the command's name and starts it, after which the
-- panel's title ends with that name.
pub has_button :
    {T : Type 0} (b : Browser) (inner_height : ℕ) (p : Page T) (k : Command)
    → k ≢ goroutines
    → command_enabled p.system ≡ true
    → Memᴰ (button (command_name k) true (on_system (start_command k))) (controls b inner_height p)
      × (panel_title (on_system (start_command k) p) ≡ "Command Outputs- " +++ command_name k)
unfolding command_enabled
has_button b inner_height p k n e = (
  on_page b p inner_height _ (among_sidebar b p _ (ground (arith, e)) (among_commands b p k n e)),
  start_command-panel_title k p,
)
