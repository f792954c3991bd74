-- ===== src/System/Invariant.antt =====
-- The invariant of the app as a whole, and that each kind of event keeps it.
use tsymbiote.Prelude.{
  ℕ, ◌≤◌, ◌≡◌, refl, sym, ap, ◌∙◌, String, Bool, true, false, Option, some, List, [], ◌∷◌, ◌++◌,
  arith, length, length-append,
}
use mathlib.Core.Path.{subst}
use tsymbiote.PingCommand.{PingSettings}
use tsymbiote.Selection.Consistency.{IsConsistent}
use tsymbiote.Stream.{Stream, cancel_streaming}
use tsymbiote.Stream.Format.{StreamType, logs, bus_events, Codec}
use tsymbiote.Stream.Wiring as Wiring
use tsymbiote.Stream.Wiring.{IsWired, Step-IsWired}
use tsymbiote.Console.{Console, App, begin}
use tsymbiote.Keyboard.{Ui}
use tsymbiote.Keyboard.Kept.{IsKept}
use tsymbiote.System.{Pending, Answer, System, on_app, receive, send}
use tsymbiote.System.Moves.{SameCommand, receive-IsEnded, Continues}

abbrev pub pending : List Pending → Bool
pending [] = false
pending (r ∷ rs) = true

abbrev pub stream_label : StreamType → String
stream_label logs = "Logs"
stream_label bus_events = "Bus Events"

-- While a stream is on, the command that is shown is the stream's.
unfoldable pub Named : Stream → String → Type 0
Named st name =
    st.is_streaming ≡ true
    → (k : StreamType) × (st.active_stream_type ≡ some k) × (name ≡ stream_label k)

abbrev pub SettingsInRange : PingSettings → Type 0
SettingsInRange p = (1 ≤ p.ping_count) × (p.ping_count ≤ 20) × (p.ping_delay ≤ 2000)

no_request : (rs : List Pending) → pending rs ≡ false → rs ≡ []
no_request [] h = refl
no_request (r ∷ rs) h = absurd (ground (arith, h))

pub only_one :
    (before after rs : List Pending) (r : Pending)
    → rs ≡ before ++ r ∷ after
    → length rs ≤ 1
    → before ++ after ≡ []
only_one [] [] rs r e l = refl
only_one [] (q ∷ after) rs r e l = absurd (omega (arith, ap length e, l))
only_one (q ∷ before) after rs r e l =
    absurd (omega (arith, ap length e, l, length-append before (r ∷ after)))

module _ {T : Type 0} where
  pub record IsSound (tallest : ℕ) (s : System T) : Type 0 where
    pub kept : IsKept tallest s.ui
    pub wired : IsWired s.ui.app.stream
    pub named : Named s.ui.app.stream s.ui.app.console.last_command
    pub loading : s.ui.app.console.status_loading ≡ pending s.requests
    pub one : length s.requests ≤ 1
    pub settings : SettingsInRange s.settings

  -- An event at the graph, the keyboard, the selection or the panel.
  pub ui-IsSound :
      (tallest : ℕ) (s : System T) (u : Ui T)
      → IsKept tallest u
      → u.app.stream ≡ s.ui.app.stream
      → SameCommand s.ui.app.console u.app.console
      → IsSound tallest s
      → IsSound tallest (record s { ui = u })
  unfolding SameCommand
  ui-IsSound tallest s u k e (l, n) h = record {
    kept = k;
    wired = subst IsWired (sym e) h.wired;
    named =
        subst (λ st. Named st u.app.console.last_command) (sym e)
          (subst (Named s.ui.app.stream) (sym n) h.named);
    loading = l ∙ h.loading;
    one = h.one;
    settings = h.settings;
  }

  pub same-IsKept :
      (tallest : ℕ) (s : Ui T) (a : App T)
      → a.selection ≡ s.app.selection
      → IsKept tallest s
      → IsKept tallest (record s { app = a })
  same-IsKept tallest s a e k = record {
    consistent = subst IsConsistent (sym e) k.consistent;
    layout = k.layout;
    in_range = k.in_range;
  }

  -- An event at the graph, which concerns only what is drawn.
  pub drawn-IsSound :
      (tallest : ℕ) (s : System T) (u : Ui T)
      → u.app ≡ s.ui.app
      → u.layout_type ≡ s.ui.layout_type
      → u.panel ≡ s.ui.panel
      → IsSound tallest s
      → IsSound tallest (record s { ui = u })
  unfolding SameCommand
  drawn-IsSound tallest s u app layout panel h =
      ui-IsSound tallest s u
        (record {
          consistent = rw app h.kept.consistent;
          layout = rw layout h.kept.layout;
          in_range = rw panel h.kept.in_range;
        })
        (rw app refl) (rw app (refl, refl)) h

  pub console-IsSound :
      (tallest : ℕ) (d : Console T) (s : System T)
      → SameCommand s.ui.app.console d
      → IsSound tallest s
      → IsSound tallest (on_app (λ a. record a { console = d }) s)
  console-IsSound tallest d s c h =
      ui-IsSound tallest s _
        (same-IsKept tallest s.ui (record s.ui.app { console = d }) refl h.kept) refl c h

  -- A socket event, a tick of the timer or a cancel.
  pub stream-IsSound :
      (tallest : ℕ) (c : Codec) (st : Stream) (s : System T)
      → Wiring.Step c s.ui.app.stream st
      → Continues s.ui.app.stream st
      → IsSound tallest s
      → IsSound tallest (on_app (λ a. record a { stream = st }) s)
  unfolding Continues Named
  stream-IsSound tallest c st s step g h = record {
    kept = same-IsKept tallest s.ui _ refl h.kept;
    wired = Step-IsWired c step h.wired;
    named = λ on. let (before, same) = g on in let (k, e, n) = h.named before in (k, same ∙ e, n);
    loading = h.loading;
    one = h.one;
    settings = h.settings;
  }

  begin-Named : (name n : String) (s : App T) → Named (begin name s).stream n
  unfolding Named begin cancel_streaming
  begin-Named name n s h = absurd (ground (arith, h))

  -- A command is started while nothing is loading.
  pub send-IsSound :
      (tallest : ℕ) (c : Codec) (name : String) (r : Pending) (refuse : Console T → Console T)
      (online : Bool) (s : System T)
      → s.ui.app.console.status_loading ≡ false
      → ((d : Console T) → (refuse d).status_loading ≡ false)
      → IsSound tallest s
      → IsSound tallest (send name r refuse online s)
  unfolding send begin
  send-IsSound tallest c name r refuse true s idle f h =
      let none_yet = no_request s.requests (sym h.loading ∙ idle) in
      record {
        kept = same-IsKept tallest s.ui _ refl h.kept;
        wired = Step-IsWired c (Wiring.cancel false) h.wired;
        named = begin-Named name name s.ui.app;
        loading = rw none_yet refl;
        one = rw none_yet (omega arith);
        settings = h.settings;
      }
  send-IsSound tallest c name r refuse false s idle f h =
      let none_yet = no_request s.requests (sym h.loading ∙ idle) in
      record {
        kept = same-IsKept tallest s.ui _ refl h.kept;
        wired = Step-IsWired c (Wiring.cancel false) h.wired;
        named = begin-Named name _ s.ui.app;
        loading = rw none_yet (f _);
        one = h.one;
        settings = h.settings;
      }

  pub received-IsSound :
      (tallest : ℕ) (atob : String → Option String) (before after : List Pending) (r : Pending)
      (a : Answer T r) (s : System T)
      → s.requests ≡ before ++ r ∷ after
      → IsSound tallest s
      → IsSound tallest (record (on_app (receive atob r a) s) { requests = before ++ after })
  received-IsSound tallest atob before after r a s e h =
      let ended = receive-IsEnded atob r a s.ui.app in
      let idle = only_one before after s.requests r e h.one in
      record {
        kept = same-IsKept tallest s.ui _ ended.selection h.kept;
        wired = subst IsWired (sym ended.stream) h.wired;
        named =
            subst (λ st. Named st (receive atob r a s.ui.app).console.last_command)
              (sym ended.stream) (subst (Named s.ui.app.stream) (sym ended.name) h.named);
        loading = rw idle ended.stopped;
        one = rw idle (omega arith);
        settings = h.settings;
      }
