-- ===== src/System/Events.antt =====
-- Everything that can happen to the app, each event under the condition under which a control is
-- enabled or the browser delivers it: the `disabled` attributes of SidebarPanel.tsx, PingControls and
-- ModalActionButtons, and the tests of the dialogs' Enter key.
use tsymbiote.Prelude.{
  ℕ, ◌≤◌, ◌≡◌, ◌≢◌, String, Bool, true, not, none, ◌==◌, ltb, ◌&&◌, ◌||◌, Option, some, List, ◌∷◌,
  ◌++◌, nat_eq, length,
}
use tsymbiote.Prelude.JsSet.{has, add}
use tsymbiote.Prelude.Dict.{keys}
use tsymbiote.Constants.{layout_options}
use tsymbiote.Api.{Outcome, PprofType}
use tsymbiote.Panel.{Panel}
use tsymbiote.Panel.Heights as Heights
use tsymbiote.PingCommand.{set_ping_count, set_ping_delay}
use tsymbiote.Selection.{Selection, selected_hosts_have_edges}
use tsymbiote.Selection.Consistency as Consistency
use tsymbiote.Stream.{
  Stream, connecting, open_now, closed, on_open, on_message, on_close, tick, cancel_streaming,
}
use tsymbiote.Stream.Format.{Codec}
use tsymbiote.Loading.{Surroundings, PeermapResponse}
use tsymbiote.Console.{Console, close_query_dns_modal, close_pprof_modal, on_console}
use tsymbiote.HostCommands.{fetch_logs, fetch_bus_events}
use tsymbiote.Dialogs.{is_blank, change_pprof_type}
use tsymbiote.Dialogs.Duration.{Parsed}
use tsymbiote.Keyboard.{KeyEvent, handle_key_down, handle_reset_key, handle_fit_key}
use tsymbiote.System.{
  Command, goroutines, Pending, Answer, System, on_app, receive, start_command, start_ping,
  start_query_dns, submit_pprof, load_data, initial_system,
}

abbrev is_none : Option String → Bool
is_none none = true
is_none (some e) = e == ""

module _ {T : Type 0} where
  abbrev no_hosts : System T → Bool
  no_hosts s = nat_eq (length s.ui.app.selection.selected_hosts) 0

  -- selectedHosts.size === 0 || statusLoading, in the open sidebar
  unfoldable pub command_enabled : System T → Bool
  command_enabled s = s.sidebar_open && not (no_hosts s || s.ui.app.console.status_loading)

  -- selectedHosts.size === 0 || isStreaming
  unfoldable pub stream_enabled : System T → Bool
  stream_enabled s = s.sidebar_open && not (no_hosts s || s.ui.app.stream.is_streaming)

  -- the ping button
  unfoldable pub ping_enabled : System T → Bool
  ping_enabled s = not (
      no_hosts s
      || (nat_eq (length s.ui.app.selection.selected_targets) 0
          && not (selected_hosts_have_edges s.ui.app.selection))
      || s.ui.app.console.status_loading)

  -- dnsName.trim() && !statusLoading, in the dialog
  unfoldable pub dns_enabled : System T → Bool
  dns_enabled s =
      s.ui.app.console.show_query_dns_modal
      && not (is_blank s.ui.app.console.dns_name)
      && not s.ui.app.console.status_loading

  unfoldable pub pprof_enabled : System T → Bool
  pprof_enabled s = s.ui.app.console.show_pprof_modal && not s.ui.app.console.status_loading

  -- whether GraphCanvas is rendered
  unfoldable pub shows_graph : System T → Bool
  shows_graph s = not s.load && is_none s.load_error && ltb 0 (length s.ui.app.selection.nodes)

  abbrev pub with_selection : Selection → System T → System T
  with_selection sel s = on_app (λ a. record a { selection = sel }) s

  abbrev pub with_stream : Stream → System T → System T
  with_stream st s = on_app (λ a. record a { stream = st }) s

  abbrev pub set_console : (Console T → Console T) → System T → System T
  set_console f s = on_app (on_console f) s

-- The browser's and the server's texts and their decoders, and a window at most `tallest` pixels high.
module _ {T : Type 0} (w : Surroundings) (c : Codec) (tallest : ℕ) where
  pub data Event (s : System T) : System T → Type 0 where
    loads :
        (answer : Outcome (Option PeermapResponse)) → s.load ≡ true → Event s (load_data w answer s)
    selects :
        {sel : Selection} → Consistency.Step s.ui.app.selection sel → Event s (with_selection sel s)
    key :
        (i : ℕ) (e : KeyEvent)
        → 200 ≤ i
        → i ≤ tallest
        → Event s (record s { ui = handle_key_down i e s.ui })
    panel :
        (i : ℕ) {p : Panel}
        → 200 ≤ i
        → i ≤ tallest
        → Heights.Step i s.ui.panel p
        → Event s (record s { ui = record s.ui { panel = p } })
    reset_button : Event s (record s { ui = handle_reset_key s.ui })
    fit_button : Event s (record s { ui = handle_fit_key s.ui })
    renders : Event s (record s { ui = record s.ui { has_graph = shows_graph s } })
    drags :
        (i : String)
        → s.ui.has_graph ≡ true
        → Event s (record s { ui = record s.ui { placed = add s.ui.placed i } })
    context_menu :
        (is_node : Bool)
        → s.ui.has_graph ≡ true
        → Event s (record s { ui = record s.ui { context_menu_open = is_node } })
    layout :
        (l : String)
        → has layout_options l ≡ true
        → Event s (record s { ui = record s.ui { layout_type = l } })
    toggle_sidebar : Event s (record s { sidebar_open = not s.sidebar_open })
    ping_count :
        (typed : Parsed) → Event s (record s { settings = set_ping_count typed s.settings })
    ping_delay :
        (typed : Parsed) → Event s (record s { settings = set_ping_delay typed s.settings })
    ping_type : (t : String) → Event s (record s { settings = record s.settings { ping_type = t } })
    output_tab :
        (h : String)
        → has (keys s.ui.app.console.output_data) h ≡ true
        → Event s (set_console (λ d. record d { selected_output_host = some h }) s)
    command :
        (k : Command) → k ≢ goroutines → command_enabled s ≡ true → Event s (start_command k s)
    ping : ping_enabled s ≡ true → Event s (start_ping s)
    open_query_dns :
        command_enabled s ≡ true
        → Event s (set_console (λ d. record d { show_query_dns_modal = true }) s)
    open_pprof :
        command_enabled s ≡ true
        → Event s (set_console (λ d. record d { show_pprof_modal = true }) s)
    close_query_dns : Event s (set_console close_query_dns_modal s)
    close_pprof : Event s (set_console close_pprof_modal s)
    dns_name : (t : String) → Event s (set_console (λ d. record d { dns_name = t }) s)
    dns_query_type : (t : String) → Event s (set_console (λ d. record d { dns_query_type = t }) s)
    pprof_type : (t : PprofType) → Event s (set_console (change_pprof_type t) s)
    pprof_duration : (t : String) → Event s (set_console (λ d. record d { pprof_duration = t }) s)
    query_dns : dns_enabled s ≡ true → Event s (start_query_dns s)
    pprof : pprof_enabled s ≡ true → Event s (submit_pprof s)
    logs : (creates : Bool) → stream_enabled s ≡ true → Event s (on_app (fetch_logs creates) s)
    bus_events :
        (creates : Bool) → stream_enabled s ≡ true → Event s (on_app (fetch_bus_events creates) s)
    cancel :
        s.ui.app.stream.is_streaming ≡ true
        → Event s (with_stream (cancel_streaming true s.ui.app.stream) s)
    opens :
        (i : ℕ)
        → s.ui.app.stream.ready i ≡ connecting
        → Event s (with_stream (on_open i s.ui.app.stream) s)
    message :
        (now i : ℕ) (text : String)
        → s.ui.app.stream.ready i ≡ open_now
        → Event s (with_stream (on_message c now i text s.ui.app.stream) s)
    closes :
        (i : ℕ)
        → s.ui.app.stream.ready i ≢ closed
        → Event s (with_stream (on_close i s.ui.app.stream) s)
    ticks :
        (now : ℕ)
        → s.ui.app.stream.has_ping_interval ≡ true
        → Event s (with_stream (tick now s.ui.app.stream) s)
    answers :
        (before : List Pending) (r : Pending) (after : List Pending)
        → s.requests ≡ before ++ r ∷ after
        → (a : Answer T r)
        → Event s (record (on_app (receive c.atob r a) s) { requests = before ++ after })

  pub data Reach : System T → Type 0 where
    begun : (i : ℕ) → 200 ≤ i → i ≤ tallest → Reach (initial_system i)
    next : {s t : System T} → Reach s → Event s t → Reach t
