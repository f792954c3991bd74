-- ===== src/OutputPanel/Shows.antt =====
-- What the panel shows of the last command.
use tsymbiote.Prelude.{
  ℕ, ◌≡◌, refl, ap, ◌∙◌, String, Bool, true, false, ◌==◌, Option, some, [], ◌∷◌, nat_eq, length,
  if◌then◌else◌, arith,
}
use tsymbiote.Prelude.Dict.{Dict, get}
use tsymbiote.Console.{Output, streaming, Console}
use tsymbiote.Stream.{Stream}
use tsymbiote.Stream.Format.{StreamType, logs, bus_events, Codec}
use tsymbiote.Loading.{Surroundings}
use tsymbiote.System.{
  Command, status, prefs, drive_shares, dns_config, serve_config, app_conn_routes, goroutines,
  command_name, System,
}
use tsymbiote.System.Events.{Reach}
use tsymbiote.System.Invariant.{Named, stream_label}
use tsymbiote.System.Sound.{Reach-IsSound}
use tsymbiote.OutputPanel as OutputPanel
use tsymbiote.OutputPanel.{
  View, stream, nothing, is_present, output_error, error_or, command_view, output_view,
  selected_view, panel_view, stream_text,
}

module _ {T : Type 0} where
  -- The view of each command.
  unfoldable pub view_of : Command → Output T → View T
  view_of status o = OutputPanel.status o
  view_of prefs o = OutputPanel.prefs o
  view_of drive_shares o = OutputPanel.drive_shares o
  view_of dns_config o = OutputPanel.dns_config o
  view_of serve_config o = OutputPanel.serve_config o
  view_of app_conn_routes o = OutputPanel.app_conn_routes o
  view_of goroutines o = OutputPanel.goroutines o

  some_outputs :
      (d : Dict (Output T)) (h : String) (o : Output T)
      → get d h ≡ some o
      → nat_eq (length d) 0 ≡ false
  unfolding get
  some_outputs [] h o e = absurd (ground (arith, e))
  some_outputs (x ∷ d) h o e = ground arith

  -- What the panel comes to where the selected host has an output.
  panel_view_selected :
      (error_of : T → Option String) (raw : Bool) (c : Console T) (s : Stream) (h : String)
      (o : Output T)
      → c.status_loading ≡ false
      → c.selected_output_host ≡ some h
      → (h == "") ≡ false
      → get c.output_data h ≡ some o
      → panel_view error_of raw c s
        ≡ output_view error_of raw c.last_command s.stream_data h (some o)
  unfolding panel_view selected_view
  panel_view_selected error_of raw c s h o idle chosen named found =
      rw idle (rw (some_outputs c.output_data h o found) (rw chosen (rw named (rw found refl))))

  -- An output that is null, undefined or empty shows nothing.
  pub panel_view_absent :
      (error_of : T → Option String) (raw : Bool) (c : Console T) (s : Stream) (h : String)
      (o : Output T)
      → c.status_loading ≡ false
      → c.selected_output_host ≡ some h
      → (h == "") ≡ false
      → get c.output_data h ≡ some o
      → is_present o ≡ false
      → panel_view error_of raw c s ≡ nothing
  unfolding output_view
  panel_view_absent error_of raw c s h o idle chosen named found absent =
      panel_view_selected error_of raw c s h o idle chosen named found ∙ rw absent refl

  command_view-name :
      (k : Command) (d : Dict String) (h : String) (o : Output T)
      → command_view (command_name k) d h o ≡ view_of k o
  unfolding command_view command_name view_of
  command_view-name status d h o = refl
  command_view-name prefs d h o = refl
  command_view-name drive_shares d h o = refl
  command_view-name dns_config d h o = refl
  command_view-name serve_config d h o = refl
  command_view-name app_conn_routes d h o = refl
  command_view-name goroutines d h o = refl

  -- Where nothing is loading, the last command is one of those with one result per host, and the
  -- selected host has an output, the panel shows the output's error or else the command's view, or
  -- with the switch "Raw JSON" the output itself.
  pub panel_view_command :
      (k : Command) (error_of : T → Option String) (raw : Bool) (c : Console T) (s : Stream)
      (h : String) (o : Output T)
      → c.status_loading ≡ false
      → c.last_command ≡ command_name k
      → c.selected_output_host ≡ some h
      → (h == "") ≡ false
      → get c.output_data h ≡ some o
      → is_present o ≡ true
      → panel_view error_of raw c s
        ≡ error_or (output_error error_of o) (if raw then OutputPanel.raw_json o else view_of k o)
  unfolding output_view
  panel_view_command k error_of raw c s h o idle last chosen named found present =
      panel_view_selected error_of raw c s h o idle chosen named found
      ∙ rw (present, last)
          (ap (λ v. error_or (output_error error_of o) (if raw then OutputPanel.raw_json o else v))
            (command_view-name k s.stream_data h o))

  stream_view :
      (k : StreamType) (d : Dict String) (h : String) (o : Output T)
      → command_view (stream_label k) d h o
        ≡ stream (stream_label k) (stream_text (stream_label k) d h)
  unfolding command_view
  stream_view logs d h o = refl
  stream_view bus_events d h o = refl

  -- In every reachable state in which a stream is on, nothing is loading and the output of the
  -- selected host is the mark of a stream, which no answer of an earlier request has replaced, the panel
  -- shows the text of the stream for that host, under the stream's own name, or with the switch
  -- "Raw JSON" the mark itself.
  pub panel_view_stream :
      (w : Surroundings) (c : Codec) (tallest : ℕ) {s : System T} (error_of : T → Option String)
      (raw : Bool) (h : String)
      → Reach w c tallest s
      → s.ui.app.stream.is_streaming ≡ true
      → s.ui.app.console.status_loading ≡ false
      → s.ui.app.console.selected_output_host ≡ some h
      → (h == "") ≡ false
      → get s.ui.app.console.output_data h ≡ some streaming
      → (k : StreamType) × (s.ui.app.stream.active_stream_type ≡ some k)
        × (panel_view error_of raw s.ui.app.console s.ui.app.stream ≡ (
            if raw
            then OutputPanel.raw_json streaming
            else stream
                (stream_label k)
                (stream_text (stream_label k) s.ui.app.stream.stream_data h)))
  unfolding Named output_view is_present output_error
  panel_view_stream w c tallest {s} error_of raw h reached on idle chosen named found =
      let (k, active, last) = (Reach-IsSound w c tallest reached).named on in
      (
        k,
        active,
        panel_view_selected error_of raw s.ui.app.console s.ui.app.stream h streaming idle chosen
              named found
            ∙ ap (λ v. if raw then OutputPanel.raw_json streaming else v)
                (rw last (stream_view k s.ui.app.stream.stream_data h streaming)),
      )
