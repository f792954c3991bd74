-- ===== src/Stream/Format.antt =====
-- The message formatters of web-ui/src/hooks/useWebSocketLogs.ts. JSON.parse, atob and the clock's
-- text are parameters, in a record; `none` is what throws.
use tsymbiote.Prelude.{
  String, ◌+++◌, Bool, not, ◌||◌, Option, none, some, List, [], ◌∷◌, ◌==◌, if◌then◌else◌,
}

pub data StreamType : Type 0 where
  logs bus_events : StreamType

-- the outer message
pub record WsMessage : Type 0 where
  pub host : String
  pub message : String

-- `text` is '' where it is missing; `client_time` is that of `logtail`.
pub record LogEntry : Type 0 where
  pub text : String
  pub client_time : Option String

-- `To` is an array, or one text, '' where it is missing.
pub data Recipients : Type 0 where
  many : List String → Recipients
  one : String → Recipients

-- `count` is the text of the number; `type` is '' where it is missing, and so is `from`.
pub record BusEvent : Type 0 where
  pub count : Option String
  pub type : String
  pub from : String
  pub to : Recipients

pub record Codec : Type 0 where
  pub parse_message : String → Option WsMessage
  pub atob : String → Option String
  pub parse_log : String → Option LogEntry
  pub parse_event : String → Option BusEvent
  pub time_string : String → String

-- xs.join(separator)
unfoldable pub join : String → List String → String
join sep [] = ""
join sep (x ∷ []) = x
join sep (x ∷ y ∷ xs) = x +++ sep +++ join sep (y ∷ xs)

-- `if (t)` for a text
abbrev pub is_filled : String → Bool
is_filled t = not (t == "")

format_log_entry : Codec → LogEntry → String
format_log_entry c e = elim e.client_time [
  | none ↦ e.text
  | some time ↦ if is_filled time then "[" +++ c.time_string time +++ "] " +++ e.text else e.text
]

-- formatLogMessage
unfoldable pub format_log_message : Codec → String → Option String
unfolding format_log_entry
format_log_message c decoded = elim (c.parse_log decoded) [
  | none ↦ none
  | some e ↦ some (format_log_entry c e)
]

abbrev recipients : Recipients → String
recipients (many ts) = join ", " ts
recipients (one t) = t

abbrev count_prefix : Option String → String
count_prefix none = ""
count_prefix (some n) = "[" +++ n +++ "] "

unfoldable pub format_event : BusEvent → String
format_event e =
    let kind = if is_filled e.type then e.type else "unknown" in
    let line = count_prefix e.count +++ kind in
    let to = recipients e.to in
    if is_filled e.from || is_filled to
    then (if is_filled to
        then line +++ ": " +++ e.from +++ " -> [" +++ to +++ "]" +++ "\n"
        else line +++ ": " +++ e.from +++ "\n")
    else line +++ "\n"

-- formatBusEventMessage
unfoldable pub format_bus_event_message : Codec → String → Option String
unfolding format_event join
format_bus_event_message c decoded = elim (c.parse_event decoded) [
  | none ↦ some (decoded +++ "\n")
  | some e ↦ some (format_event e)
]

-- getMessageFormatter
unfoldable pub format_message : Codec → StreamType → String → Option String
unfolding format_log_message format_bus_event_message
format_message c logs decoded = format_log_message c decoded
format_message c bus_events decoded = format_bus_event_message c decoded
