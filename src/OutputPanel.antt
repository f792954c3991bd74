-- ===== src/OutputPanel.antt =====
-- What web-ui/src/components/CommandOutputsPanel.tsx shows of the outputs: the choice of the view and
-- the text of a stream. `T` is the type of the results that are only displayed, and `error_of` the
-- field `error` of one, where it has one.
pub mod Shows
use tsymbiote.Prelude.{
  String, Bool, true, false, not, ◌&&◌, ◌||◌, Option, none, some, List, [], ◌∷◌, ◌==◌, nat_eq,
  if◌then◌else◌, length,
}
use tsymbiote.Prelude.Dict.{Dict, get}
use tsymbiote.Prelude.Text.{codes, includes}
use tsymbiote.Console.{
  Output, failed, result, ping_cells, dns, pprof_file, pprof_error, text, streaming, Console,
}
use tsymbiote.Stream.{Stream}

-- The content of the panel; a content that shows an output has it.
pub data View (T : Type 0) : Type 0 where
  loading no_output nothing : View T
  error : String → View T
  raw_json ping query_dns pprof prefs drive_shares dns_config serve_config app_conn_routes
        goroutines status :
      Output T → View T
  stream : (title : String) → (shown : String) → View T

-- text || waiting
abbrev pub or_waiting : Option String → String → String
or_waiting none waiting = waiting
or_waiting (some t) waiting = if t == "" then waiting else t

-- StreamResultsContent: streamData[selectedOutputHost] || waitingMessage
unfoldable pub stream_text : String → Dict String → String → String
stream_text title data_ host =
    or_waiting (get data_ host)
      (if title == "Logs" then "Waiting for logs..." else "Waiting for bus events...")

-- getResponseCodeColor
unfoldable pub get_response_code_color : String → String
get_response_code_color rcode =
    if (rcode == "NOERROR") || (rcode == "Success") || includes (codes rcode) (codes "Success")
    then "bg-green-600"
    else if rcode == "NXDOMAIN"
    then "bg-orange-600"
    else "bg-red-600"

abbrev pub truthy_text : Option String → Option String
truthy_text none = none
truthy_text (some e) = if e == "" then none else some e

module _ {T : Type 0} where
  -- whether outputData[selectedOutputHost] is truthy
  unfoldable pub is_present : Output T → Bool
  is_present (result none) = false
  is_present (text t) = not (t == "")
  is_present _ = true

  -- outputData[selectedOutputHost].error, if it is truthy; no peer of a ping is named `error`
  abbrev pub result_error : (T → Option String) → Option T → Option String
  result_error error_of none = none
  result_error error_of (some r) = error_of r

  unfoldable pub output_error : (T → Option String) → Output T → Option String
  output_error error_of (failed e) = truthy_text (some e)
  output_error error_of (result r) = truthy_text (result_error error_of r)
  output_error error_of (dns e header responses resolvers) = truthy_text e
  output_error error_of (pprof_error e t) = truthy_text (some e)
  output_error error_of _ = none

  -- lastCommand === …
  unfoldable pub command_view : String → Dict String → String → Output T → View T
  unfolding stream_text
  command_view last_command data_ host o =
      if last_command == "Ping"
      then ping o
      else if last_command == "Query DNS"
      then query_dns o
      else if last_command == "Pprof"
      then pprof o
      else if last_command == "Prefs"
      then prefs o
      else if last_command == "Drive Shares"
      then drive_shares o
      else if last_command == "DNS Config"
      then dns_config o
      else if last_command == "Serve Config"
      then serve_config o
      else if last_command == "AppConn Routes"
      then app_conn_routes o
      else if last_command == "Goroutines"
      then goroutines o
      else if last_command == "Logs"
      then stream "Logs" (stream_text "Logs" data_ host)
      else if last_command == "Bus Events"
      then stream "Bus Events" (stream_text "Bus Events" data_ host)
      else status o

  abbrev pub error_or : Option String → View T → View T
  error_or none v = v
  error_or (some e) v = error e

  unfoldable pub output_view :
      (T → Option String) → Bool → String → Dict String → String → Option (Output T) → View T
  unfolding is_present output_error command_view
  output_view error_of raw last_command data_ host none = nothing
  output_view error_of raw last_command data_ host (some o) =
      if is_present o
      then error_or (output_error error_of o)
          (if raw then raw_json o else command_view last_command data_ host o)
      else nothing

  unfoldable pub selected_view :
      (T → Option String) → Bool → Console T → Dict String → Option String → View T
  unfolding output_view
  selected_view error_of raw c data_ none = nothing
  selected_view error_of raw c data_ (some h) =
      if h == ""
      then nothing
      else output_view error_of raw c.last_command data_ h (get c.output_data h)

  -- the panel's content; `raw` is the switch "Raw JSON"
  unfoldable pub panel_view : (T → Option String) → Bool → Console T → Stream → View T
  unfolding selected_view
  panel_view error_of raw c s =
      if c.status_loading
      then loading
      else if nat_eq (length c.output_data) 0
      then no_output
      else selected_view error_of raw c s.stream_data c.selected_output_host
