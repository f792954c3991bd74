-- ===== src/Stream/Wiring.antt =====
-- The invariant that ties the refs, the state and the browser's sockets together.
use tsymbiote.Prelude.{
  ℕ, ◌≤◌, ◌<◌, String, ◌≡◌, refl, sym, ◌∙◌, ◌≢◌, Bool, true, false, Option, none, some, List, [],
  ◌∷◌, arith, length,
}
use tsymbiote.Stream.Format.{StreamType, Codec}
use tsymbiote.Stream.{
  Stream, connecting, open_now, closed, initial_stream, cancel_streaming, start_stream, on_open,
  on_message, on_close, tick,
}

-- What the user, the browser and the timer can do.
pub data Step (c : Codec) (s : Stream) : Stream → Type 0 where
  start :
      (creates : Bool) (kind : StreamType) (hosts : List String)
      → Step c s (start_stream creates kind hosts s)
  cancel : (append : Bool) → Step c s (cancel_streaming append s)
  opens : (i : ℕ) → s.ready i ≡ connecting → Step c s (on_open i s)
  receives :
      (now i : ℕ) (text : String) → s.ready i ≡ open_now → Step c s (on_message c now i text s)
  closes : (i : ℕ) → s.ready i ≢ closed → Step c s (on_close i s)
  ticks : (now : ℕ) → s.has_ping_interval ≡ true → Step c s (tick now s)

pub data Reach (c : Codec) : Stream → Type 0 where
  begun : Reach c initial_stream
  next : {s t : Stream} → Reach c s → Step c s t → Reach c t

-- The attached socket was created, is not closed, has the stream's kind and hosts, and is watched
-- by the ping interval.
pub record IsAttached (s : Stream) (i : ℕ) : Type 0 where
  pub known : i < s.created
  pub not_closed : s.ready i ≢ closed
  pub kind : s.stream_type ≡ some (s.kind_of i)
  pub hosts : s.host_ids ≡ s.hosts_of i
  pub some_host : 0 < length s.host_ids
  pub streaming : s.is_streaming ≡ true
  pub watched : s.has_ping_interval ≡ true

abbrev pub Attached : Option ℕ → Stream → Type 0
Attached none s = Unit
Attached (some i) s = IsAttached s i

pub record IsWired (s : Stream) : Type 0 where
  pub attached : Attached s.ws s
  pub shown : s.active_stream_type ≡ s.stream_type
  pub idle : s.is_streaming ≡ false → (s.ws ≡ none) × (s.stream_type ≡ none)
  pub fresh : (j : ℕ) → s.created ≤ j → s.ready j ≡ closed

idle-IsWired :
    (s : Stream)
    → s.ws ≡ none
    → s.stream_type ≡ none
    → s.active_stream_type ≡ none
    → ((j : ℕ) → s.created ≤ j → s.ready j ≡ closed)
    → IsWired s
idle-IsWired s w t a f = record {
  attached = rw w tt;
  shown = a ∙ sym t;
  idle = λ h. (w, t);
  fresh = f;
}

cancel-IsWired : (append : Bool) (s : Stream) → IsWired s → IsWired (cancel_streaming append s)
unfolding cancel_streaming
cancel-IsWired append s w = ground (arith, w.fresh)

start-IsWired :
    (creates : Bool) (kind : StreamType) (hosts : List String) (s : Stream)
    → IsWired s
    → IsWired (start_stream creates kind hosts s)
unfolding start_stream
start-IsWired creates kind [] s w = cancel-IsWired false s w
start-IsWired true kind (h ∷ hs) s w = ground (arith, w.fresh)
start-IsWired false kind (h ∷ hs) s w = ground (arith, w.fresh)

open-IsWired : (i : ℕ) (s : Stream) → s.ready i ≡ connecting → IsWired s → IsWired (on_open i s)
unfolding on_open
open-IsWired i s r w = ground (arith, w.fresh)

message-IsWired :
    (c : Codec) (now i : ℕ) (text : String) (s : Stream)
    → IsWired s
    → IsWired (on_message c now i text s)
unfolding on_message
message-IsWired c now i text s w = ground (arith, w.fresh)

close-IsWired : (i : ℕ) (s : Stream) → s.ready i ≢ closed → IsWired s → IsWired (on_close i s)
unfolding on_close
close-IsWired i s r w = ground (arith, w.fresh)

tick-IsWired : (now : ℕ) (s : Stream) → IsWired s → IsWired (tick now s)
unfolding tick
tick-IsWired now s w = ground (arith, w.fresh)

pub Step-IsWired : (c : Codec) {s t : Stream} → Step c s t → IsWired s → IsWired t
Step-IsWired c {s} (start creates kind hosts) w = start-IsWired creates kind hosts s w
Step-IsWired c {s} (cancel append) w = cancel-IsWired append s w
Step-IsWired c {s} (opens i r) w = open-IsWired i s r w
Step-IsWired c {s} (receives now i text r) w = message-IsWired c now i text s w
Step-IsWired c {s} (closes i r) w = close-IsWired i s r w
Step-IsWired c {s} (ticks now h) w = tick-IsWired now s w

-- After any sequence of starts, cancels, socket events and timer ticks: a socket that the stream
-- refers to is one of the browser's, not closed, with the stream's kind and hosts, shown as
-- streaming and watched by the ping interval; the shown kind is the stream's; and what is not shown
-- as streaming refers to no socket.
pub Reach-IsWired : (c : Codec) {s : Stream} → Reach c s → IsWired s
Reach-IsWired c begun = idle-IsWired initial_stream refl refl refl (λ j h. refl)
Reach-IsWired c (next before step) = Step-IsWired c step (Reach-IsWired c before)
