-- ===== src/Results/Content.antt =====
-- What the panel of web-ui/src/components/CommandOutputsPanel.tsx shows: the content of the view
-- that OutputPanel chooses. The cells of a ping are an argument, since Ping keeps only the fields
-- that it reads, and so is a profile, of which Viewer has the download.
use tsymbiote.Prelude.{String, true, Option, none, some}
use tsymbiote.Prelude.Dict.{Dict}
use tsymbiote.Prelude.Text.{Text}
use tsymbiote.Js.{Js, undefined, bool, string, object, no_member, member}
use tsymbiote.Js.Jsx.{Ui, heading, text, nothing, show_one, ◌<>◌, Texts, child}
use tsymbiote.Api.{PprofType}
use tsymbiote.Ping.{PingCell}
use tsymbiote.Console.{Output}
use tsymbiote.OutputPanel.{View}
use tsymbiote.Results.DnsConfigView.{dns_config_view}
use tsymbiote.Results.DnsQueryView.{query_dns_view}
use tsymbiote.Results.DriveSharesView.{drive_shares_view}
use tsymbiote.Results.AppConnView.{app_conn_routes_view}
use tsymbiote.Results.GoroutinesView.{goroutines_view}
use tsymbiote.Results.PingView.{ping_view}
use tsymbiote.Results.PrefsView.{prefs_view}
use tsymbiote.Results.ServeConfigView.{serve_config_view}
use tsymbiote.Results.StatusView.{status_view}

abbrev pub or_undefined : Option Js → Js
or_undefined none = undefined
or_undefined (some x) = x

abbrev pub text_or_undefined : Option String → Js
text_or_undefined none = undefined
text_or_undefined (some s) = string s

-- What is not written out here: String.fromCodePoint, JSON.stringify, the cells of
-- a ping and a profile as values, and the view of a profile.
pub record Sources : Type 0 where
  pub texts : Texts
  pub decoded : Text → String
  pub json_text : Js → String
  pub ping_value : Dict PingCell → Js
  pub profile : Js → Ui
  pub profile_value : Js → String → PprofType → Js
  pub type_name : PprofType → String

module _ (s : Sources) where
  -- The value of outputData
  unfoldable pub output_value : Output Js → Js
  output_value (Output.failed e) = object (member "error" (string e) no_member)
  output_value (Output.result r) = or_undefined r
  output_value (Output.ping_cells d) = s.ping_value d
  output_value (Output.dns e h r v) = object (
      member "error" (text_or_undefined e) (
        member "header" (or_undefined h)
          (member "responses" (or_undefined r) (member "resolvers" (or_undefined v) no_member))))
  output_value (Output.pprof_file d h k) = s.profile_value d h k
  output_value (Output.pprof_error e k) =
      object (member "error" (string e) (member "pprofType" (string (s.type_name k)) no_member))
  output_value (Output.text x) = string x
  output_value Output.streaming = object (member "streaming" (bool true) no_member)

  unfoldable pub content : View Js → Ui
  unfolding output_value
  content View.loading = show_one (text "Loading...")
  content View.no_output = show_one (text "No command output yet. Run a command to see results.")
  content View.nothing = nothing
  content (View.error e) = show_one (text "Error: ") <> child s.texts (string e)
  content (View.raw_json o) = show_one (text (s.json_text (output_value o)))
  content (View.ping o) = ping_view s.texts (output_value o)
  content (View.query_dns o) = query_dns_view s.texts (output_value o)
  content (View.pprof o) = s.profile (output_value o)
  content (View.prefs o) = prefs_view s.texts (output_value o)
  content (View.drive_shares o) = drive_shares_view s.texts (output_value o)
  content (View.dns_config o) = dns_config_view s.texts (output_value o)
  content (View.serve_config o) = serve_config_view s.texts (output_value o)
  content (View.app_conn_routes o) = app_conn_routes_view s.texts (output_value o)
  content (View.goroutines o) = goroutines_view s.texts s.decoded (output_value o)
  content (View.stream title shown) = show_one (heading title) <> child s.texts (string shown)
  content (View.status o) = status_view s.texts (output_value o)
