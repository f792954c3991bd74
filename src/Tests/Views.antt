-- ===== src/Tests/Views.antt =====
-- What the panel shows of a result and of a stream.
use tsymbiote.Prelude.{
  ℕ, ◌≡◌, refl, String, Option, some, none, true, false, [], ◌∷◌, arith, if◌then◌else◌,
}
use tsymbiote.Prelude.Dict.{get, put}
use tsymbiote.Prelude.JsSet.{from_list}
use tsymbiote.Api.{returned}
use tsymbiote.Peers.{target_nodes, filter_online, is_online, online_node, find_node}
use tsymbiote.Selection.{settle_all, drop_unreachable, deselect_offline, select_default_targets}
use tsymbiote.Stream.{start_stream}
use tsymbiote.Stream.Format.{StreamType}
use tsymbiote.Console.{Output, result, streaming, Console, online_selected_hosts}
use tsymbiote.HostCommands.{fetch_logs}
use tsymbiote.System.{System, on_app, initial_system, load_data}
use tsymbiote.System.Events.{Reach, begun, next, loads, logs, stream_enabled}
use tsymbiote.System.Invariant.{stream_label}
use tsymbiote.OutputPanel.{stream, raw_json, is_present, panel_view, stream_text}
use tsymbiote.OutputPanel.Shows.{panel_view_stream}
use tsymbiote.Tests.Data.{codec, console}
use tsymbiote.Tests.Whole.{surroundings, two_hosts, loaded}

abbrev streamed : System Unit
streamed = on_app (fetch_logs true) loaded

loaded_streams : stream_enabled loaded ≡ true
unfolding stream_enabled load_data initial_system settle_all drop_unreachable from_list
    deselect_offline select_default_targets target_nodes
loaded_streams = refl

streamed_is_reached : Reach surroundings codec 900 streamed
unfolding initial_system
streamed_is_reached =
    next (next (begun 900 (ground arith) (ground arith)) (loads (returned (some two_hosts)) refl))
      (logs true loaded_streams)

abbrev no_error : {A : Type 0} → A → Option String
no_error r = none

streamed_facts :
    (streamed.ui.app.stream.is_streaming ≡ true)
    × (streamed.ui.app.console.status_loading ≡ false)
    × (streamed.ui.app.console.selected_output_host ≡ some "h1")
    × (get streamed.ui.app.console.output_data "h1" ≡ some streaming)
unfolding fetch_logs load_data initial_system settle_all drop_unreachable from_list deselect_offline
    select_default_targets target_nodes online_selected_hosts filter_online is_online online_node
    find_node start_stream get put
streamed_facts = (refl, refl, refl, refl)

panel_view_stream_example :
    (k : StreamType) × (streamed.ui.app.stream.active_stream_type ≡ some k)
    × (panel_view no_error false streamed.ui.app.console streamed.ui.app.stream ≡ (
        if false
        then raw_json streaming
        else stream
            (stream_label k)
            (stream_text (stream_label k) streamed.ui.app.stream.stream_data "h1")))
panel_view_stream_example =
    panel_view_stream surroundings codec 900 no_error false "h1" streamed_is_reached
      streamed_facts.0 streamed_facts.1 streamed_facts.2 refl streamed_facts.3

abbrev three : Output ℕ
three = result (some 3)

abbrev shown_prefs : Console ℕ
shown_prefs = record console {
  status_loading = false;
  last_command = "Prefs";
  selected_output_host = some "h1";
  output_data = ("h1", three) ∷ [];
}

prefs_found : get shown_prefs.output_data "h1" ≡ some three
unfolding get
prefs_found = refl

result_is_present : is_present three ≡ true
unfolding is_present
result_is_present = refl
