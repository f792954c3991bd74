-- ===== src/Stream.antt =====
-- web-ui/src/hooks/useWebSocketLogs.ts: one WebSocket stream of logs or bus events, its keepalive
-- and what it shows for each host. The browser's sockets are numbered in the order in which they
-- are created; `ready` is each one's readyState, and `kind_of` and `hosts_of` are what the handlers
-- of each one close over. Handlers and timers are functions of the state, run one at a time.
pub mod Format
pub mod Wiring
pub mod Keepalive
pub mod Texts
pub mod Races
use tsymbiote.Prelude.{
  ℕ, ◌+◌, ◌-◌, String, ◌+++◌, Bool, true, false, ◌&&◌, Option, none, some, List, [], ◌∷◌, ◌==◌, ltb,
  nat_eq, if◌then◌else◌,
}
use tsymbiote.Constants.{pong_timeout_ms}
use tsymbiote.Prelude.Dict.{Dict, get, put}
use Format.{StreamType, logs, bus_events, Codec, format_message}

pub data Ready : Type 0 where
  connecting open_now closing closed : Ready

pub record Stream : Type 0 where
  pub ws : Option ℕ
  pub host_ids : List String
  pub last_pong_time : ℕ
  pub has_ping_interval : Bool
  pub stream_type : Option StreamType
  pub stream_data : Dict String
  pub is_streaming : Bool
  pub active_stream_type : Option StreamType
  pub created : ℕ
  pub ready : ℕ → Ready
  pub kind_of : ℕ → StreamType
  pub hosts_of : ℕ → List String
  pub pings_sent : ℕ

abbrev pub update {ℓ} : {A : Type ℓ} → (ℕ → A) → ℕ → A → ℕ → A
update f i v j = if nat_eq i j then v else f j

-- the refs and the state before the first stream
abbrev pub initial_stream : Stream
initial_stream = record {
  ws = none;
  host_ids = [];
  last_pong_time = 0;
  has_ping_interval = false;
  stream_type = none;
  stream_data = [];
  is_streaming = false;
  active_stream_type = none;
  created = 0;
  ready = λ i. closed;
  kind_of = λ i. logs;
  hosts_of = λ i. [];
  pings_sent = 0;
}

-- getDisconnectMessage, getConnectingMessage
abbrev pub disconnect_message : StreamType → String
disconnect_message logs = "\n[logtap disconnected]"
disconnect_message bus_events = "\n[bus events disconnected]"

abbrev pub connecting_message : StreamType → String
connecting_message logs = "Connecting to log stream...\n"
connecting_message bus_events = "Connecting to bus events stream...\n"

abbrev pub timeout_message : String
timeout_message = "\n[connection timeout]"

-- prev[hostId] || ''
abbrev pub or_blank : Option String → String
or_blank none = ""
or_blank (some t) = t

-- setStreamData(prev => ({ ...prev, [hostId]: (prev[hostId] || '') + text }))
unfoldable pub append_text : Dict String → String → String → Dict String
append_text d host text = put d host (or_blank (get d host) +++ text)

-- the same for each of the hosts
unfoldable pub append_to_all : Dict String → List String → String → Dict String
unfolding append_text
append_to_all d [] text = d
append_to_all d (h ∷ hs) text = append_to_all (append_text d h text) hs text

fill_from : Dict String → List String → String → Dict String
fill_from d [] text = d
fill_from d (h ∷ hs) text = fill_from (put d h text) hs text

-- the object with the same text for each host
unfoldable pub fill : List String → String → Dict String
unfolding fill_from
fill hosts text = fill_from [] hosts text

abbrev pub is_open_now : Ready → Bool
is_open_now open_now = true
is_open_now _ = false

-- wsRef.current && wsRef.current.readyState === WebSocket.OPEN
abbrev pub ws_is_open : Option ℕ → (ℕ → Ready) → Bool
ws_is_open none ready = false
ws_is_open (some i) ready = is_open_now (ready i)

abbrev pub closing_ws : Option ℕ → (ℕ → Ready) → ℕ → Ready
closing_ws none ready = ready
closing_ws (some i) ready = update ready i closing

abbrev pub append_disconnect : Option StreamType → List String → Dict String → Dict String
append_disconnect none hosts d = d
append_disconnect (some k) hosts d = append_to_all d hosts (disconnect_message k)

-- cancelStreaming
unfoldable pub cancel_streaming : Bool → Stream → Stream
cancel_streaming append_disconnect_message s = record s {
  has_ping_interval = false;
  last_pong_time = 0;
  stream_data =
      if append_disconnect_message && ws_is_open s.ws s.ready
      then append_disconnect s.stream_type s.host_ids s.stream_data
      else s.stream_data;
  ready = if ws_is_open s.ws s.ready then closing_ws s.ws s.ready else s.ready;
  ws = none;
  host_ids = [];
  stream_type = none;
  is_streaming = false;
  active_stream_type = none;
}

-- The refs, the state and the text that a start sets before the socket is made.
abbrev announce : StreamType → List String → Stream → Stream
announce kind hosts s = record s {
  is_streaming = true;
  active_stream_type = some kind;
  host_ids = hosts;
  stream_type = some kind;
  stream_data = fill hosts (connecting_message kind);
  has_ping_interval = true;
}

-- `new WebSocket(wsUrl)`, with its handlers
abbrev create_socket : StreamType → List String → Stream → Stream
create_socket kind hosts s = record s {
  ws = some s.created;
  created = s.created + 1;
  ready = update s.ready s.created connecting;
  kind_of = update s.kind_of s.created kind;
  hosts_of = update s.hosts_of s.created hosts;
}

-- startStream; `creates` is false where the constructor throws, which the `catch` swallows.
unfoldable pub start_stream : Bool → StreamType → List String → Stream → Stream
unfolding cancel_streaming
start_stream creates kind [] s = cancel_streaming false s
start_stream creates kind (h ∷ hs) s =
    if creates
    then create_socket kind (h ∷ hs) (announce kind (h ∷ hs) (cancel_streaming false s))
    else announce kind (h ∷ hs) (cancel_streaming false s)

-- ws.onopen
unfoldable pub on_open : ℕ → Stream → Stream
on_open i s = record s { ready = update s.ready i open_now; stream_data = fill (s.hosts_of i) "" }

-- What ws.onmessage appends, and for which host: none for what it drops.
unfoldable pub message_text : Codec → StreamType → String → Option (String × String)
message_text c kind text = elim (c.parse_message text) [
  | none ↦ none
  | some m ↦ elim (c.atob m.message) [
    | none ↦ none
    | some decoded ↦
        if decoded == "websocket closed"
        then some (m.host, disconnect_message kind)
        else elim (format_message c kind decoded) [
          | none ↦ none
          | some formatted ↦ some (m.host, formatted)
        ]
  ]
]

abbrev append_message : Dict String → Option (String × String) → Dict String
append_message d none = d
append_message d (some (h, t)) = append_text d h t

-- ws.onmessage, at the time `now`
unfoldable pub on_message : Codec → ℕ → ℕ → String → Stream → Stream
unfolding message_text append_text
on_message c now i text s =
    if text == "pong"
    then record s { last_pong_time = now }
    else record s { stream_data = append_message s.stream_data (message_text c (s.kind_of i) text) }

abbrev pub detached : Stream → Stream
detached s = record s {
  last_pong_time = 0;
  ws = none;
  host_ids = [];
  stream_type = none;
  is_streaming = false;
  active_stream_type = none;
}

abbrev detach_if : Option ℕ → Stream → Stream
detach_if none s = s
detach_if (some i) s = detached s

-- ws.onclose
unfoldable pub on_close : ℕ → Stream → Stream
on_close i s = detach_if s.ws (record s { ready = update s.ready i closed })

abbrev pub shut : Ready → Ready
shut closed = closed
shut _ = closing

-- the test for a stale connection
abbrev pub is_stale : ℕ → ℕ → Bool
is_stale now last_pong = ltb 0 last_pong && ltb pong_timeout_ms (now - last_pong)

abbrev time_out : ℕ → Stream → Stream
time_out i s = detached (record s {
  stream_data = append_to_all s.stream_data s.host_ids timeout_message;
  ready = update s.ready i (shut (s.ready i));
})

abbrev send_ping : ℕ → ℕ → Stream → Stream
send_ping now i s =
    if is_open_now (s.ready i)
    then record s {
      pings_sent = s.pings_sent + 1;
      last_pong_time = if nat_eq s.last_pong_time 0 then now else s.last_pong_time;
    }
    else s

abbrev tick_ws : ℕ → Option ℕ → Stream → Stream
tick_ws now none s = s
tick_ws now (some i) s = if is_stale now s.last_pong_time then time_out i s else send_ping now i s

-- the callback of `setInterval`, at the time `now`
unfoldable pub tick : ℕ → Stream → Stream
tick now s = tick_ws now s.ws s

abbrev close_any : Option ℕ → (ℕ → Ready) → ℕ → Ready
close_any none ready = ready
close_any (some i) ready = update ready i (shut (ready i))

-- the cleanup on unmount
unfoldable pub unmount : Stream → Stream
unmount s = record s {
  has_ping_interval = false;
  ready = close_any s.ws s.ready;
  ws = none;
  host_ids = [];
  stream_type = none;
  last_pong_time = 0;
}
