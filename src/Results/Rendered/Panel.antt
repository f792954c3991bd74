-- ===== src/Results/Rendered/Panel.antt =====
-- When the panel renders the result of a command.
use tsymbiote.Prelude.{
  String, ◌≡◌, Bool, true, false, ◌&&◌, and-true, ◌==◌, Option, some, none, List, [], ◌∷◌,
  if◌then◌else◌, Bool-cases, inl, inr,
}
use tsymbiote.Prelude.Dict.{get}
use tsymbiote.Prelude.Text.{Text}
use tsymbiote.Js.{Js, field}
use tsymbiote.Js.Shapes.{is_plain, object_fits}
use tsymbiote.Js.Declared.{text-plain, whole-plain}
use tsymbiote.Js.Jsx.{Texts}
use tsymbiote.Js.Returns.{Renders, Renders-some, <>-Renders, child-Renders}
use tsymbiote.Widgets.Rendered.{rendering}
use tsymbiote.Console.{Output, Console}
use tsymbiote.Stream.{Stream}
use tsymbiote.System.{
  Command, status, prefs, drive_shares, dns_config, serve_config, app_conn_routes, goroutines,
  command_name,
}
use tsymbiote.OutputPanel.{View, nothing, raw_json, panel_view, is_present, output_error, error_or}
use tsymbiote.OutputPanel.Shows.{view_of, panel_view_command, panel_view_absent}
use tsymbiote.Goroutines.{ParsedGoroutine}
use tsymbiote.Results.Content.{Sources, output_value, content}
use tsymbiote.Results.GoroutinesView.{
  duration_text, goroutine_card, goroutine_cards, stack_view, goroutines_view,
}
use tsymbiote.Results.Types.{
  prefs_field, drive_shares_field, dns_os_config_field, serve_config_field, route_info_field,
}
use tsymbiote.Results.PeerTypes.{status_field}
use tsymbiote.Results.Rendered.Parts.{error_or_else-Renders}
use tsymbiote.Results.Rendered.Prefs.{prefs_view-Renders}
use tsymbiote.Results.Rendered.Configs.{
  dns_config_view-Renders, drive_shares_view-Renders, app_conn_routes_view-Renders,
}
use tsymbiote.Results.Rendered.Serve.{serve_config_view-Renders}
use tsymbiote.Results.Rendered.Status.{status_view-Renders}

-- What the view of each command expects of a result. It is the type that api.ts declares, and more
-- where api.ts leaves a field open: the peers and the node of a status have the types of PeerNodeData,
-- its users those of a profile, and the operator of the preferences is no object and no list.
-- Goroutines are a text, in which any field is undefined.
abbrev expected_type : Command → Js → Bool
expected_type status = object_fits status_field
expected_type prefs = λ v. object_fits prefs_field v && is_plain (field v "OperatorUser")
expected_type drive_shares = object_fits drive_shares_field
expected_type dns_config = object_fits dns_os_config_field
expected_type serve_config = object_fits serve_config_field
expected_type app_conn_routes = object_fits route_info_field
expected_type goroutines = λ v. true

-- A value that the view expects, whose error is no object and no list
unfoldable pub fits : Command → Js → Bool
fits k v = expected_type k v && is_plain (field v "error")

module _ (t : Texts) (decoded : Text → String) where
  duration_text-Renders : (d : Option Text) → Renders (duration_text t decoded d)
  unfolding duration_text
  duration_text-Renders none = Renders-some _
  duration_text-Renders (some d) = child-Renders t _ (text-plain _)

  goroutine_cards-Renders : (gs : List ParsedGoroutine) → Renders (goroutine_cards t decoded gs)
  unfolding goroutine_cards goroutine_card
  goroutine_cards-Renders [] = Renders-some _
  goroutine_cards-Renders (g ∷ gs) =
      let rest = goroutine_cards-Renders gs in
      search (rendering, text-plain, duration_text-Renders) depth 12

  goroutines_view-Renders :
      (d : Js) → is_plain (field d "error") ≡ true → Renders (goroutines_view t decoded d)
  unfolding goroutines_view stack_view
  goroutines_view-Renders d e =
      search (rendering, error_or_else-Renders, whole-plain, goroutine_cards-Renders) depth 12

module _ (s : Sources) where
  view_of-Renders :
      (k : Command) (o : Output Js)
      → fits k (output_value s o) ≡ true
      → Renders (content s (view_of k o))
  unfolding view_of content fits
  view_of-Renders status o h = let (a, b) = and-true _ _ h in status_view-Renders s.texts _ a b
  view_of-Renders prefs o h =
      let (a, b) = and-true _ _ h in
      let (c, d) = and-true _ _ a in prefs_view-Renders s.texts _ c d b
  view_of-Renders drive_shares o h =
      let (a, b) = and-true _ _ h in drive_shares_view-Renders s.texts _ a b
  view_of-Renders dns_config o h =
      let (a, b) = and-true _ _ h in dns_config_view-Renders s.texts _ a b
  view_of-Renders serve_config o h =
      let (a, b) = and-true _ _ h in serve_config_view-Renders s.texts _ a b
  view_of-Renders app_conn_routes o h =
      let (a, b) = and-true _ _ h in app_conn_routes_view-Renders s.texts _ a b
  view_of-Renders goroutines o h = goroutines_view-Renders s.texts s.decoded (output_value s o) h

  nothing-Renders : Renders (content s nothing)
  unfolding content
  nothing-Renders = Renders-some _

  error_or-Renders :
      (e : Option String) (v : View Js) → Renders (content s v) → Renders (content s (error_or e v))
  unfolding content
  error_or-Renders none v h = h
  error_or-Renders (some e) v h =
      <>-Renders (Renders-some _) (child-Renders s.texts _ (text-plain e))

  raw_or-Renders :
      (raw : Bool) (o : Output Js) (v : View Js)
      → Renders (content s v)
      → Renders (content s (if raw then raw_json o else v))
  unfolding content
  raw_or-Renders true o v h = Renders-some _
  raw_or-Renders false o v h = h

  -- Where nothing is loading, the last command is one of those with one result per host, and the
  -- selected host has an output that, if it is there, is an error or what the command's view expects, the
  -- panel renders.
  pub panel_view-Renders :
      (k : Command) (error_of : Js → Option String) (raw : Bool) (c : Console Js) (st : Stream)
      (h : String) (o : Output Js)
      → c.status_loading ≡ false
      → c.last_command ≡ command_name k
      → c.selected_output_host ≡ some h
      → (h == "") ≡ false
      → get c.output_data h ≡ some o
      → (is_present o ≡ true → fits k (output_value s o) ≡ true)
      → Renders (content s (panel_view error_of raw c st))
  panel_view-Renders k error_of raw c st h o idle last chosen named found typed =
      elim (Bool-cases (is_present o)) [
        | inl p ↦ rw (panel_view_command k error_of raw c st h o idle last chosen named found p) (
            error_or-Renders (output_error error_of o) _
              (raw_or-Renders raw o (view_of k o) (view_of-Renders k o (typed p))))
        | inr p ↦
            rw (panel_view_absent error_of raw c st h o idle chosen named found p) nothing-Renders
      ]
