-- ===== src/System/Moves.antt =====
-- What the app's events leave as it is.
use tsymbiote.Prelude.{
  ℕ, String, ◌≡◌, refl, inl, inr, Bool, true, false, ◌||◌, Option, none, some, List, arith, ◌==◌,
  if◌then◌else◌, Bool-cases,
}
use tsymbiote.Prelude.Dict.{Dict, keys}
use tsymbiote.Api.{Outcome, returned, thrown, Body, HostResult, PprofType, array, other, is_ok}
use tsymbiote.Api.QueryDns.{DnsBody}
use tsymbiote.Ping.{PingResult}
use tsymbiote.Console.{
  Output, result, Console, App, close_query_dns_modal, close_pprof_modal, show_results, alert,
}
use tsymbiote.Stream.{Stream, on_open, on_message, on_close, tick}
use tsymbiote.Stream.Format.{Codec}
use tsymbiote.HostCommands.{finish, show_goroutines}
use tsymbiote.Dialogs.{finish_query_dns, finish_pprof}
use tsymbiote.PingCommand.{finish_ping}
use tsymbiote.Keyboard.{
  Ui, KeyEvent, handle_spacebar_key, handle_tab_key, handle_backtick_key, handle_reset_key,
  handle_fit_key, handle_wasd_keys, Shortcut, spacebar, tab, backtick, reset, fit, pan,
  handle_escape_key, select_tab, run_shortcut, run_any, shortcut_of, modal_open, handle_key_down,
}
use tsymbiote.System.{
  status, prefs, drive_shares, dns_config, serve_config, app_conn_routes, goroutines, Pending,
  ask_hosts, ask_ping, ask_dns, ask_pprof, Answer, receive,
}

-- The flag and the name of the command are the same in both consoles.
unfoldable pub SameCommand : {T : Type 0} → Console T → Console T → Type 0
SameCommand c d = (d.status_loading ≡ c.status_loading) × (d.last_command ≡ c.last_command)

module _ {T : Type 0} where
  escape-SameCommand : (s : Ui T) → SameCommand s.app.console (handle_escape_key s).app.console
  unfolding handle_escape_key SameCommand close_query_dns_modal close_pprof_modal
  escape-SameCommand s = ground arith

  select-SameCommand :
      (shift : Bool) (hosts : List String) (o : Option String) (c : Console T)
      → SameCommand c (select_tab shift hosts o c)
  unfolding select_tab SameCommand
  select-SameCommand shift hosts none c = (refl, refl)
  select-SameCommand shift hosts (some h) c = ground arith

  tab-SameCommand :
      (shift b : Bool) (s : Ui T)
      → SameCommand s.app.console (if b then handle_tab_key shift s else s).app.console
  unfolding handle_tab_key
  tab-SameCommand shift true s =
      select-SameCommand shift (keys s.app.console.output_data) s.app.console.selected_output_host
        s.app.console
  tab-SameCommand shift false s = unfold SameCommand in (refl, refl)

  shortcut-SameCommand :
      (i : ℕ) (shift : Bool) (k : Shortcut) (s : Ui T)
      → SameCommand s.app.console (run_shortcut i shift k s).app.console
  unfolding run_shortcut handle_spacebar_key handle_tab_key handle_backtick_key handle_reset_key
      handle_fit_key handle_wasd_keys SameCommand
  shortcut-SameCommand i shift spacebar s = ground arith
  shortcut-SameCommand i shift tab s = tab-SameCommand shift s.app.console.status_panel_open s
  shortcut-SameCommand i shift backtick s = (refl, refl)
  shortcut-SameCommand i shift reset s = (refl, refl)
  shortcut-SameCommand i shift fit s = ground arith
  shortcut-SameCommand i shift (pan m) s = ground arith

  any-SameCommand :
      (i : ℕ) (shift : Bool) (o : Option Shortcut) (s : Ui T)
      → SameCommand s.app.console (run_any i shift o s).app.console
  unfolding run_any SameCommand
  any-SameCommand i shift none s = (refl, refl)
  any-SameCommand i shift (some k) s = shortcut-SameCommand i shift k s

  pub key-SameCommand :
      (i : ℕ) (e : KeyEvent) (s : Ui T)
      → SameCommand s.app.console (handle_key_down i e s).app.console
  unfolding handle_key_down
  key-SameCommand i e s = elim (Bool-cases (e.key == "Escape")) [
    | inl q ↦ rw q (escape-SameCommand s)
    | inr q ↦ rw q (elim (Bool-cases (e.is_input_field || modal_open s)) [
      | inl r ↦ rw r (unfold SameCommand in (refl, refl))
      | inr r ↦ rw r (any-SameCommand i e.shift_key (shortcut_of e.key) s)
    ])
  ]

  -- An answer ends the loading, and changes neither the command's name nor the rest of the app.
  pub record IsEnded (s t : App T) : Type 0 where
    pub stopped : t.console.status_loading ≡ false
    pub name : t.console.last_command ≡ s.console.last_command
    pub selection : t.selection ≡ s.selection
    pub stream : t.stream ≡ s.stream

  finish-IsEnded :
      {R : Type 0} (f : Option R → Output T) (o : Outcome (Body (HostResult R))) (s : App T)
      → IsEnded s (finish f o s)
  unfolding finish show_results
  finish-IsEnded f (returned body) s = record {
    stopped = refl;
    name = refl;
    selection = refl;
    stream = refl;
  }
  finish-IsEnded f (thrown m) s = record {
    stopped = refl;
    name = refl;
    selection = refl;
    stream = refl;
  }

  ping-IsEnded :
      (asked : Dict (List String)) (o : Outcome (Body PingResult)) (s : App T)
      → IsEnded s (finish_ping asked o s)
  unfolding finish_ping show_results
  ping-IsEnded asked (returned (array rs)) s = record {
    stopped = refl;
    name = refl;
    selection = refl;
    stream = refl;
  }
  ping-IsEnded asked (returned other) s = record {
    stopped = refl;
    name = refl;
    selection = refl;
    stream = refl;
  }
  ping-IsEnded asked (thrown m) s = record {
    stopped = refl;
    name = refl;
    selection = refl;
    stream = refl;
  }

  query_dns-IsEnded : (o : Outcome (DnsBody T)) (s : App T) → IsEnded s (finish_query_dns o s)
  unfolding finish_query_dns show_results close_query_dns_modal alert
  query_dns-IsEnded (returned body) s = record {
    stopped = refl;
    name = refl;
    selection = refl;
    stream = refl;
  }
  query_dns-IsEnded (thrown m) s = record {
    stopped = refl;
    name = refl;
    selection = refl;
    stream = refl;
  }

  pprof-IsEnded :
      (o : Outcome ℕ) (download : List String → List (String × Outcome T)) (t : PprofType)
      (hosts : List String) (s : App T)
      → IsEnded s (finish_pprof o download t hosts s)
  unfolding finish_pprof show_results alert
  pprof-IsEnded (thrown m) download t hosts s = record {
    stopped = refl;
    name = refl;
    selection = refl;
    stream = refl;
  }
  pprof-IsEnded (returned code) download t hosts s = elim (Bool-cases (is_ok code)) [
    | inl e ↦ rw e (record { stopped = refl; name = refl; selection = refl; stream = refl })
    | inr e ↦ rw e (record { stopped = refl; name = refl; selection = refl; stream = refl })
  ]

  pub receive-IsEnded :
      (atob : String → Option String) (r : Pending) (a : Answer T r) (s : App T)
      → IsEnded s (receive atob r a s)
  unfolding receive
  receive-IsEnded atob (ask_hosts status hosts) a s = finish-IsEnded result a s
  receive-IsEnded atob (ask_hosts prefs hosts) a s = finish-IsEnded result a s
  receive-IsEnded atob (ask_hosts drive_shares hosts) a s = finish-IsEnded result a s
  receive-IsEnded atob (ask_hosts dns_config hosts) a s = finish-IsEnded result a s
  receive-IsEnded atob (ask_hosts serve_config hosts) a s = finish-IsEnded result a s
  receive-IsEnded atob (ask_hosts app_conn_routes hosts) a s = finish-IsEnded result a s
  receive-IsEnded atob (ask_hosts goroutines hosts) a s = finish-IsEnded (show_goroutines atob) a s
  receive-IsEnded atob (ask_ping asked input) a s = ping-IsEnded asked a s
  receive-IsEnded atob (ask_dns input) a s = query_dns-IsEnded a s
  receive-IsEnded atob (ask_pprof t hosts input) (a, download) s =
      pprof-IsEnded a download t hosts s

-- The stream is on in the second state only if it was in the first, with the same kind.
unfoldable pub Continues : Stream → Stream → Type 0
Continues s t =
    t.is_streaming ≡ true → (s.is_streaming ≡ true) × (t.active_stream_type ≡ s.active_stream_type)

pub open-Continues : (i : ℕ) (s : Stream) → Continues s (on_open i s)
unfolding on_open Continues
open-Continues i s h = (h, refl)

pub message-Continues :
    (c : Codec) (now i : ℕ) (text : String) (s : Stream) → Continues s (on_message c now i text s)
unfolding on_message Continues
message-Continues c now i text s = ground arith

pub close-Continues : (i : ℕ) (s : Stream) → Continues s (on_close i s)
unfolding on_close Continues
close-Continues i s = ground arith

pub tick-Continues : (now : ℕ) (s : Stream) → Continues s (tick now s)
unfolding tick Continues
tick-Continues now s = ground arith
