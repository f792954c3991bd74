-- ===== src/System/Sound.antt =====
-- The invariant of the app as a whole, over every sequence of events.
use tsymbiote.Prelude.{ℕ, ◌≤◌, ◌≡◌, refl, true, false, [], arith}
use tsymbiote.Panel.{initial_panel}
use tsymbiote.Panel.Heights as Heights
use tsymbiote.PingCommand.{ping_targets, ping_input}
use tsymbiote.Selection.Consistency as Consistency
use tsymbiote.Selection.Consistency.{nil-Subset, IsConsistent, Step-IsConsistent}
use tsymbiote.Stream.{cancel_streaming}
use tsymbiote.Stream.Format.{logs, bus_events, Codec}
use tsymbiote.Stream.Wiring as Wiring
use tsymbiote.Stream.Wiring.{IsWired, Step-IsWired}
use tsymbiote.Loading.{Surroundings}
use tsymbiote.Console.{stop_loading, close_query_dns_modal, close_pprof_modal}
use tsymbiote.Dialogs.{change_pprof_type}
use tsymbiote.HostCommands.{fetch_logs, fetch_bus_events}
use tsymbiote.Keyboard.{handle_reset_key, handle_fit_key}
use tsymbiote.Keyboard.Kept.{default_known, handle_key_down-IsKept}
use tsymbiote.System.{ask_ping, System, start_ping, initial_system}
use tsymbiote.System.Events as Events
use tsymbiote.System.Events.{
  command_enabled, stream_enabled, ping_enabled, dns_enabled, pprof_enabled, Event, Reach, begun,
  next, loads, selects, key, panel, reset_button, fit_button, renders, drags, context_menu, layout,
  toggle_sidebar, ping_count, ping_delay, ping_type, output_tab, command, ping, open_query_dns,
  open_pprof, close_query_dns, close_pprof, dns_name, dns_query_type, pprof_type, pprof_duration,
  query_dns, pprof, cancel, opens, message, closes, ticks, answers,
}
use tsymbiote.System.Moves.{
  SameCommand, key-SameCommand, Continues, open-Continues, message-Continues, close-Continues,
  tick-Continues,
}
use tsymbiote.System.Invariant.{
  Named, IsSound, ui-IsSound, console-IsSound, stream-IsSound, send-IsSound, drawn-IsSound,
  received-IsSound,
}
use tsymbiote.System.Started.{
  command-IsSound, query_dns-IsSound, pprof-IsSound, stream_command-IsSound, load-IsSound,
  fit-IsKept, settings-IsSound, count-InRange, delay-InRange,
}

module _ {T : Type 0} (w : Surroundings) (c : Codec) (tallest : ℕ) where
  idle_of_command :
      (s : System T) → command_enabled s ≡ true → s.ui.app.console.status_loading ≡ false
  unfolding command_enabled
  idle_of_command s e = ground (arith, e)

  idle_of_ping : (s : System T) → ping_enabled s ≡ true → s.ui.app.console.status_loading ≡ false
  unfolding ping_enabled
  idle_of_ping s e = ground (arith, e)

  idle_of_dns : (s : System T) → dns_enabled s ≡ true → s.ui.app.console.status_loading ≡ false
  unfolding dns_enabled
  idle_of_dns s e = ground (arith, e)

  idle_of_pprof : (s : System T) → pprof_enabled s ≡ true → s.ui.app.console.status_loading ≡ false
  unfolding pprof_enabled
  idle_of_pprof s e = ground (arith, e)

  pub Event-IsSound :
      {s t : System T} → Event w c tallest s t → IsSound tallest s → IsSound tallest t
  unfolding SameCommand start_ping handle_reset_key handle_fit_key close_query_dns_modal
      close_pprof_modal change_pprof_type fetch_logs fetch_bus_events Continues cancel_streaming
  Event-IsSound {s} (loads answer l) h = load-IsSound tallest w answer s h
  Event-IsSound {s} (selects step) h =
      ui-IsSound tallest s _
        (record {
          consistent = Step-IsConsistent step h.kept.consistent;
          layout = h.kept.layout;
          in_range = h.kept.in_range;
        })
        refl (refl, refl) h
  Event-IsSound {s} (key i e lo hi) h =
      let (k, st, d) = handle_key_down-IsKept tallest i e s.ui lo hi h.kept in
      ui-IsSound tallest s _ k st (key-SameCommand i e s.ui) h
  Event-IsSound {s} (panel i lo hi step) h =
      ui-IsSound tallest s _
        (record {
          consistent = h.kept.consistent;
          layout = h.kept.layout;
          in_range = Heights.Step-InRange tallest i lo hi step h.kept.in_range;
        })
        refl (refl, refl) h
  Event-IsSound {s} reset_button h =
      ui-IsSound tallest s _
        (record {
          consistent = Step-IsConsistent Consistency.reset h.kept.consistent;
          layout = default_known;
          in_range = h.kept.in_range;
        })
        refl (refl, refl) h
  Event-IsSound {s} fit_button h =
      ui-IsSound tallest s (handle_fit_key s.ui) (fit-IsKept tallest s.ui h.kept) (ground arith)
        (ground arith) h
  Event-IsSound {s} renders h = drawn-IsSound tallest s _ refl refl refl h
  Event-IsSound {s} (drags i shown) h = drawn-IsSound tallest s _ refl refl refl h
  Event-IsSound {s} (context_menu is_node shown) h = drawn-IsSound tallest s _ refl refl refl h
  Event-IsSound {s} (layout l known) h =
      ui-IsSound tallest s _
        (record { consistent = h.kept.consistent; layout = known; in_range = h.kept.in_range }) refl
        (refl, refl) h
  Event-IsSound {s} toggle_sidebar h = record {
    kept = h.kept;
    wired = h.wired;
    named = h.named;
    loading = h.loading;
    one = h.one;
    settings = h.settings;
  }
  Event-IsSound {s} (ping_count typed) h =
      settings-IsSound tallest _ s (count-InRange typed s.settings h.settings) h
  Event-IsSound {s} (ping_delay typed) h =
      settings-IsSound tallest _ s (delay-InRange typed s.settings h.settings) h
  Event-IsSound {s} (ping_type t) h = settings-IsSound tallest _ s h.settings h
  Event-IsSound {s} (output_tab x known) h = console-IsSound tallest _ s (refl, refl) h
  Event-IsSound {s} (command k other e) h = command-IsSound tallest c k s (idle_of_command s e) h
  Event-IsSound {s} (ping e) h =
      send-IsSound tallest c "Ping"
        (ask_ping (ping_targets s.ui.app) (ping_input s.settings s.ui.app)) stop_loading true s
        (idle_of_ping s e) (λ d. refl) h
  Event-IsSound {s} (open_query_dns e) h = console-IsSound tallest _ s (refl, refl) h
  Event-IsSound {s} (open_pprof e) h = console-IsSound tallest _ s (refl, refl) h
  Event-IsSound {s} close_query_dns h = console-IsSound tallest _ s (refl, refl) h
  Event-IsSound {s} close_pprof h = console-IsSound tallest _ s (refl, refl) h
  Event-IsSound {s} (dns_name t) h = console-IsSound tallest _ s (refl, refl) h
  Event-IsSound {s} (dns_query_type t) h = console-IsSound tallest _ s (refl, refl) h
  Event-IsSound {s} (pprof_type t) h = console-IsSound tallest _ s (refl, refl) h
  Event-IsSound {s} (pprof_duration t) h = console-IsSound tallest _ s (refl, refl) h
  Event-IsSound {s} (query_dns e) h = query_dns-IsSound tallest c s (idle_of_dns s e) h
  Event-IsSound {s} (pprof e) h =
      pprof-IsSound tallest c s.ui.app.console.pprof_type s (idle_of_pprof s e) h
  Event-IsSound {s} (Events.logs creates e) h =
      stream_command-IsSound tallest c "Logs" logs _ creates s refl h
  Event-IsSound {s} (Events.bus_events creates e) h =
      stream_command-IsSound tallest c "Bus Events" bus_events _ creates s refl h
  Event-IsSound {s} (cancel on) h =
      stream-IsSound tallest c _ s (Wiring.cancel true) (λ x. absurd (ground (arith, x))) h
  Event-IsSound {s} (opens i r) h =
      stream-IsSound tallest c _ s (Wiring.opens i r) (open-Continues i s.ui.app.stream) h
  Event-IsSound {s} (message now i text r) h =
      stream-IsSound tallest c _ s (Wiring.receives now i text r)
        (message-Continues c now i text s.ui.app.stream) h
  Event-IsSound {s} (closes i r) h =
      stream-IsSound tallest c _ s (Wiring.closes i r) (close-Continues i s.ui.app.stream) h
  Event-IsSound {s} (ticks now r) h =
      stream-IsSound tallest c _ s (Wiring.ticks now r) (tick-Continues now s.ui.app.stream) h
  Event-IsSound {s} (answers before r after e a) h =
      received-IsSound tallest c.atob before after r a s e h

  begun-IsSound : (i : ℕ) → 200 ≤ i → i ≤ tallest → IsSound tallest (initial_system {T = T} i)
  unfolding initial_system Named initial_panel
  begun-IsSound i lo hi = record {
    kept = record {
      consistent = record {
        hosts_unique = tt;
        hosts_known = nil-Subset [];
        targets_unique = tt;
        targets_reachable = nil-Subset _;
      };
      layout = default_known;
      in_range = Heights.Reach-InRange tallest (Heights.opened i lo hi);
    };
    wired = Wiring.Reach-IsWired c Wiring.begun;
    named = λ on. absurd (ground (arith, on));
    loading = refl;
    one = omega arith;
    settings = (omega arith, omega arith, omega arith);
  }

  -- Whatever the user, the server, the sockets and the timer do, in whatever order, in a window that is
  -- never lower than 200 pixels nor higher than `tallest`: only hosts and reachable peers are selected,
  -- the layout is one of the options and the panel is in range; the stream's refs, state and socket
  -- agree; while it is on, the shown command is the stream's; the loading flag is set exactly while a
  -- request is under way, of which there is never more than one; and the ping settings are in range.
  pub Reach-IsSound : {s : System T} → Reach w c tallest s → IsSound tallest s
  Reach-IsSound (begun i lo hi) = begun-IsSound i lo hi
  Reach-IsSound (next before event) = Event-IsSound event (Reach-IsSound before)
