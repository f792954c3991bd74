-- ===== src/Tests/Streams.antt =====
-- Examples for the stream.
use tsymbiote.Prelude.{◌≡◌, refl, true, false, none, some, [], ◌∷◌, arith, if◌then◌else◌}
use tsymbiote.Prelude.JsSet.{has, IsUnique}
use tsymbiote.Prelude.Dict.{get}
use tsymbiote.Stream.{
  connecting, open_now, closing, initial_stream, cancel_streaming, start_stream, on_open, on_close,
}
use tsymbiote.Stream.Format.{logs, bus_events}
use tsymbiote.Stream.Wiring.{begun, next, start, opens, IsWired, Reach-IsWired}
use tsymbiote.Stream.Keepalive.{run_ticks, silent_peer_is_noticed}
use tsymbiote.Stream.Races.{restart_before_close, cancel_while_connecting}
use tsymbiote.Tests.Data.{hosts, open_stream, connecting_stream, codec}

Reach-IsWired_example : IsWired (on_open 0 (start_stream true logs hosts initial_stream))
unfolding start_stream
Reach-IsWired_example =
    Reach-IsWired codec (next (next begun (start true logs hosts)) (opens 0 refl))

silent_peer_is_noticed_example :
    ((run_ticks 2 3000 open_stream).ws ≡ some 0)
    × ((run_ticks 3 3000 open_stream).ws ≡ none)
    × ((run_ticks 3 3000 open_stream).is_streaming ≡ false)
silent_peer_is_noticed_example =
    silent_peer_is_noticed 3000 0 open_stream refl refl (ground arith) (ground arith) (ground arith)

distinct_hosts : IsUnique hosts
unfolding has
distinct_hosts = (refl, (refl, tt))

restart_before_close_example :
    let t = start_stream true bus_events ("h2" ∷ []) (cancel_streaming true open_stream) in
    (t.ready 0 ≡ closing)
    × (t.is_streaming ≡ true)
    × ((on_close 0 t).is_streaming ≡ false)
    × ((on_close 0 t).ready 1 ≡ connecting)
restart_before_close_example =
    restart_before_close open_stream 0 bus_events "h2" [] refl refl (ground arith)

cancel_while_connecting_example :
    ((cancel_streaming false connecting_stream).is_streaming ≡ false)
    × ((cancel_streaming false connecting_stream).ready 0 ≡ connecting)
    × ((on_open 0 (cancel_streaming false connecting_stream)).ready 0 ≡ open_now)
    × (get (on_open 0 (cancel_streaming false connecting_stream)).stream_data "h1"
        ≡ (if has hosts "h1" then some "" else none))
cancel_while_connecting_example = cancel_while_connecting connecting_stream 0 false "h1" refl refl
