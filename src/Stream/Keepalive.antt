-- ===== src/Stream/Keepalive.antt =====
-- When the ping interval gives a connection up.
use tsymbiote.Prelude.{ℕ, zero, suc, ◌+◌, ◌≤◌, ◌<◌, ◌≡◌, ◌↔◌, false, none, some, arith}
use tsymbiote.Constants.{ping_interval_ms, pong_timeout_ms}
use tsymbiote.Stream.{Stream, open_now, closing, tick, append_to_all, timeout_message}

-- Exactly an attached stream whose last pong, or first ping, is longer ago than the timeout is given
-- up by a tick; it then shows as stopped, and its socket is closing.
tick-detaches_iff :
    (now i : ℕ) (s : Stream)
    → s.ws ≡ some i
    → s.ready i ≡ open_now
    → (((tick now s).ws ≡ none)
        ↔ ((0 < s.last_pong_time) × (s.last_pong_time + pong_timeout_ms < now)))
      × ((tick now s).ws ≡ none
          → ((tick now s).is_streaming ≡ false)
            × ((tick now s).ready i ≡ closing)
            × ((tick now s).stream_data ≡ append_to_all s.stream_data s.host_ids timeout_message))
unfolding tick
tick-detaches_iff now i s w r = ((λ h. ground arith, λ h. ground arith), λ h. ground arith)

-- `n` ticks of the interval, the first at `now`, with nothing in between.
unfoldable pub run_ticks : ℕ → ℕ → Stream → Stream
run_ticks zero now s = s
run_ticks (suc n) now s = run_ticks n (now + ping_interval_ms) (tick now s)

-- A peer that stops answering is noticed: of the ticks after its last pong, the third at the latest
-- ends the stream, and the first two do not.
pub silent_peer_is_noticed :
    (now i : ℕ) (s : Stream)
    → s.ws ≡ some i
    → s.ready i ≡ open_now
    → 0 < s.last_pong_time
    → s.last_pong_time < now
    → now ≤ s.last_pong_time + ping_interval_ms
    → ((run_ticks 2 now s).ws ≡ some i)
      × ((run_ticks 3 now s).ws ≡ none)
      × ((run_ticks 3 now s).is_streaming ≡ false)
unfolding run_ticks tick
silent_peer_is_noticed now i s w r p l u = ground arith

-- A peer that never answers at all is noticed by the fourth tick after the socket opened.
pub mute_peer_is_noticed :
    (now i : ℕ) (s : Stream)
    → s.ws ≡ some i
    → s.ready i ≡ open_now
    → s.last_pong_time ≡ 0
    → 0 < now
    → ((run_ticks 3 now s).ws ≡ some i)
      × ((run_ticks 4 now s).ws ≡ none)
      × ((run_ticks 4 now s).is_streaming ≡ false)
unfolding run_ticks tick
mute_peer_is_noticed now i s w r z p = ground arith
