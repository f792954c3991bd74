-- ===== src/System/Started.antt =====
-- The commands, the loading of the data and the changes of settings against the invariant of the app.
use tsymbiote.Prelude.{
  ℕ, ◌≡◌, refl, inl, inr, String, Bool, true, false, Option, some, none, List, [], ◌∷◌, arith,
  Bool-cases,
}
use tsymbiote.PingCommand.{PingSettings, set_ping_count, set_ping_delay}
use tsymbiote.Stream.{Stream, start_stream}
use tsymbiote.Stream.Format.{StreamType, Codec}
use tsymbiote.Stream.Wiring as Wiring
use tsymbiote.Stream.Wiring.{IsWired, Step-IsWired}
use tsymbiote.Loading.{Surroundings, PeermapResponse}
use tsymbiote.Loading.Loaded.{fetch_data_kept}
use tsymbiote.Console.{alert, stop_loading, online_selected_hosts, close_pprof_modal}
use tsymbiote.Dialogs.{is_blank}
use tsymbiote.Dialogs.Duration.{Parsed, nan, int}
use tsymbiote.Api.{Outcome, PprofType, PprofInput, goroutine}
use tsymbiote.HostCommands.{stream_command}
use tsymbiote.Keyboard.{Ui, handle_fit_key}
use tsymbiote.Keyboard.Kept.{IsKept}
use tsymbiote.System.{
  Command, goroutines, ask_hosts, ask_dns, ask_pprof, command_name, no_online, some_online,
  dns_input, start_pprof, submit_as, System, on_app, start_command, start_query_dns, load_data,
}
use tsymbiote.System.Moves.{SameCommand}
use tsymbiote.System.Invariant.{
  stream_label, Named, SettingsInRange, IsSound, console-IsSound, send-IsSound, same-IsKept,
}

start_stream_kind :
    (creates : Bool) (kind : StreamType) (h : String) (hs : List String) (s : Stream)
    → (start_stream creates kind (h ∷ hs) s).active_stream_type ≡ some kind
unfolding start_stream
start_stream_kind true kind h hs s = refl
start_stream_kind false kind h hs s = refl

module _ {T : Type 0} where
  pub command-IsSound :
      (tallest : ℕ) (c : Codec) (k : Command) (s : System T)
      → s.ui.app.console.status_loading ≡ false
      → IsSound tallest s
      → IsSound tallest (start_command k s)
  unfolding start_command
  command-IsSound tallest c k s idle h =
      send-IsSound tallest c (command_name k) (ask_hosts k (online_selected_hosts s.ui.app))
        stop_loading (some_online s) s idle (λ d. refl) h

  pub query_dns-IsSound :
      (tallest : ℕ) (c : Codec) (s : System T)
      → s.ui.app.console.status_loading ≡ false
      → IsSound tallest s
      → IsSound tallest (start_query_dns s)
  unfolding start_query_dns alert SameCommand
  query_dns-IsSound tallest c s idle h = elim (Bool-cases (is_blank s.ui.app.console.dns_name)) [
    | inl e ↦ rw e (console-IsSound tallest _ s (refl, refl) h)
    | inr e ↦ rw e (
        send-IsSound tallest c "Query DNS" (ask_dns (dns_input s)) no_online (some_online s) s idle
          (λ d. refl) h)
  ]

  start_pprof-IsSound :
      (tallest : ℕ) (c : Codec) (o : Option PprofInput) (s : System T)
      → s.ui.app.console.status_loading ≡ false
      → IsSound tallest s
      → IsSound tallest (start_pprof o s)
  unfolding start_pprof alert SameCommand
  start_pprof-IsSound tallest c none s idle h = console-IsSound tallest _ s (refl, refl) h
  start_pprof-IsSound tallest c (some input) s idle h =
      send-IsSound tallest c "Pprof"
        (ask_pprof s.ui.app.console.pprof_type (online_selected_hosts s.ui.app) input) no_online
        (some_online s) s idle (λ d. refl) h

  pub pprof-IsSound :
      (tallest : ℕ) (c : Codec) (t : PprofType) (s : System T)
      → s.ui.app.console.status_loading ≡ false
      → IsSound tallest s
      → IsSound tallest (submit_as t s)
  unfolding submit_as close_pprof_modal SameCommand
  pprof-IsSound tallest c goroutine s idle h =
      console-IsSound tallest (close_pprof_modal (start_command goroutines s).ui.app.console)
        (start_command goroutines s) (refl, refl) (command-IsSound tallest c goroutines s idle h)
  pprof-IsSound tallest c _ s idle h = start_pprof-IsSound tallest c _ s idle h

  pub stream_command-IsSound :
      (tallest : ℕ) (c : Codec) (name : String) (kind : StreamType) (hosts : List String)
      (creates : Bool) (s : System T)
      → name ≡ stream_label kind
      → IsSound tallest s
      → IsSound tallest (on_app (stream_command name kind hosts creates) s)
  unfolding stream_command alert SameCommand Named
  stream_command-IsSound tallest c name kind [] creates s e h =
      console-IsSound tallest _ s (refl, refl) h
  stream_command-IsSound tallest c name kind (x ∷ hosts) creates s e h = record {
    kept = same-IsKept tallest s.ui _ refl h.kept;
    wired = Step-IsWired c (Wiring.start creates kind (x ∷ hosts)) h.wired;
    named = λ on. (kind, start_stream_kind creates kind x hosts s.ui.app.stream, e);
    loading = h.loading;
    one = h.one;
    settings = h.settings;
  }

  pub load-IsSound :
      (tallest : ℕ) (w : Surroundings) (answer : Outcome (Option PeermapResponse)) (s : System T)
      → IsSound tallest s
      → IsSound tallest (load_data w answer s)
  unfolding load_data
  load-IsSound tallest w answer s h = record {
    kept = record {
      consistent =
          let k = h.kept.consistent in
          fetch_data_kept w answer _ k.hosts_unique k.hosts_known k.targets_unique;
      layout = h.kept.layout;
      in_range = h.kept.in_range;
    };
    wired = h.wired;
    named = h.named;
    loading = h.loading;
    one = h.one;
    settings = h.settings;
  }

  pub fit-IsKept : (tallest : ℕ) (u : Ui T) → IsKept tallest u → IsKept tallest (handle_fit_key u)
  unfolding handle_fit_key
  fit-IsKept tallest u k = ground (arith, k)

  pub settings-IsSound :
      (tallest : ℕ) (p : PingSettings) (s : System T)
      → SettingsInRange p
      → IsSound tallest s
      → IsSound tallest (record s { settings = p })
  settings-IsSound tallest p s r h = record {
    kept = h.kept;
    wired = h.wired;
    named = h.named;
    loading = h.loading;
    one = h.one;
    settings = r;
  }

pub count-InRange :
    (typed : Parsed) (p : PingSettings)
    → SettingsInRange p
    → SettingsInRange (set_ping_count typed p)
unfolding set_ping_count
count-InRange nan p r = ground arith
count-InRange (int true n) p r = ground arith
count-InRange (int false n) p r = ground arith

pub delay-InRange :
    (typed : Parsed) (p : PingSettings)
    → SettingsInRange p
    → SettingsInRange (set_ping_delay typed p)
unfolding set_ping_delay
delay-InRange nan p r = ground arith
delay-InRange (int true n) p r = ground arith
delay-InRange (int false n) p r = ground arith
