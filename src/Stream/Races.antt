-- ===== src/Stream/Races.antt =====
-- What the handlers of a socket that the stream no longer refers to can still do.
use tsymbiote.Prelude.{
  ℕ, ◌<◌, String, ◌≡◌, refl, ◌≢◌, Bool, true, false, none, some, List, ◌∷◌, arith, if◌then◌else◌,
}
use tsymbiote.Prelude.JsSet.{has}
use tsymbiote.Prelude.Dict.{get}
use tsymbiote.Stream.Format.{StreamType}
use tsymbiote.Stream.{
  Stream, connecting, open_now, closing, cancel_streaming, start_stream, on_open, on_close,
}
use tsymbiote.Stream.Texts.{get-fill}

-- The close event of an earlier socket detaches the present one: the stream shows as stopped and
-- can no longer be cancelled, while the present socket stays open.
pub stale_close_detaches :
    (s : Stream) (i j : ℕ)
    → s.ws ≡ some i
    → j ≢ i
    → s.ready i ≡ open_now
    → ((on_close j s).ws ≡ none)
      × ((on_close j s).is_streaming ≡ false)
      × ((on_close j s).ready i ≡ open_now)
      × ((cancel_streaming true (on_close j s)).ready i ≡ open_now)
unfolding on_close cancel_streaming
stale_close_detaches s i j w ne r = ground arith

-- The same by a short run: an open stream is cancelled and another started before the close event
-- of the first arrives. That event stops the second stream, whose socket stays as it was.
pub restart_before_close :
    (s : Stream) (i : ℕ) (kind : StreamType) (h : String) (hs : List String)
    → s.ws ≡ some i
    → s.ready i ≡ open_now
    → i < s.created
    → let t = start_stream true kind (h ∷ hs) (cancel_streaming true s) in
      (t.ready i ≡ closing)
      × (t.is_streaming ≡ true)
      × ((on_close i t).is_streaming ≡ false)
      × ((on_close i t).ready s.created ≡ connecting)
unfolding start_stream cancel_streaming on_close
restart_before_close s i kind h hs w r l = ground arith

-- Cancelling while the socket is connecting does not close it. When it opens, its handler still
-- replaces what is shown, whatever that is by then, by empty texts for its own hosts.
pub cancel_while_connecting :
    (s : Stream) (i : ℕ) (append : Bool) (j : String)
    → s.ws ≡ some i
    → s.ready i ≡ connecting
    → ((cancel_streaming append s).is_streaming ≡ false)
      × ((cancel_streaming append s).ready i ≡ connecting)
      × ((on_open i (cancel_streaming append s)).ready i ≡ open_now)
      × (get (on_open i (cancel_streaming append s)).stream_data j
          ≡ (if has (s.hosts_of i) j then some "" else none))
unfolding cancel_streaming on_open
cancel_while_connecting s i append j w r =
    (refl, ground arith, ground arith, get-fill (s.hosts_of i) "" j)

-- A cancel of an open stream, and a start, leave the new socket as the only one that the stream
-- refers to, connecting, with the new kind and hosts; the old socket is closing.
pub start_replaces :
    (s : Stream) (i : ℕ) (kind : StreamType) (h : String) (hs : List String)
    → s.ws ≡ some i
    → s.ready i ≡ open_now
    → i < s.created
    → let t = start_stream true kind (h ∷ hs) s in
      (t.ws ≡ some s.created)
      × (t.ready s.created ≡ connecting)
      × (t.kind_of s.created ≡ kind)
      × (t.hosts_of s.created ≡ h ∷ hs)
      × (t.ready i ≡ closing)
unfolding start_stream cancel_streaming
start_replaces s i kind h hs w r l = ground arith
