-- ===== src/Results/Rendered/Command.antt =====
-- The panel after a command.
use tsymbiote.Prelude.{
  ◌<◌, String, ◌≡◌, Bool, refl, ◌∙◌, ap, sym, true, false, Option, none, some, List, [], ◌∷◌, ◌==◌,
  length, All, Bool-cases, Option-cases, inl, inr, arith,
}
use tsymbiote.Prelude.Dict.{get}
use tsymbiote.Api.{HostResult, Outcome, Body, array, returned}
use tsymbiote.Js.{Js, field}
use tsymbiote.Js.Shapes.{is_plain, object_fits}
use tsymbiote.Console.{Output, failed, App, online_selected_hosts}
use tsymbiote.Stream.{Stream}
use tsymbiote.HostCommands.{host_name, error_text, collect_body, host_command}
use tsymbiote.HostCommands.Outputs.{
  item, latest, get-collect, host_command_ends, host_command_returned,
}
use tsymbiote.OutputPanel.{panel_view, is_present}
use tsymbiote.System.{
  Command, status, prefs, drive_shares, dns_config, serve_config, app_conn_routes, goroutines,
  command_name,
}
use tsymbiote.Js.Returns.{Renders}
use tsymbiote.Results.Content.{Sources, output_value, content}
use tsymbiote.Results.Types.{
  prefs_field, drive_shares_field, dns_os_config_field, serve_config_field, route_info_field,
}
use tsymbiote.Results.PeerTypes.{status_field}
use tsymbiote.Results.Rendered.Panel.{fits, panel_view-Renders}

failed-fits : (s : Sources) (k : Command) (e : String) → fits k (output_value s (failed e)) ≡ true
unfolding fits output_value object_fits is_plain field status_field prefs_field drive_shares_field
    dns_os_config_field serve_config_field route_info_field
failed-fits s status e = refl
failed-fits s prefs e = refl
failed-fits s drive_shares e = refl
failed-fits s dns_config e = refl
failed-fits s serve_config e = refl
failed-fits s app_conn_routes e = refl
failed-fits s goroutines e = refl

module _ {R : Type 0} (s : Sources) (show : Option R → Output Js) (k : Command) where
  -- An output, if it is there, is what the command's view expects.
  abbrev OutputFits : Output Js → Type 0
  OutputFits o = is_present o ≡ true → fits k (output_value s o) ≡ true

  -- What an item without an error gives is what the command's view expects.
  abbrev pub ItemFits : HostResult R → Type 0
  ItemFits r = error_text r.error ≡ none → OutputFits (show r.result)

  item-OutputFits : (r : HostResult R) → ItemFits r → OutputFits (item show r)
  item-OutputFits r h = elim (Option-cases (error_text r.error)) [
    | inl e ↦ rw (e, item) (h e)
    | inr (m, e) ↦ rw (e, item) (λ _. failed-fits s k m)
  ]

  latest-OutputFits :
      (rs : List (HostResult R)) (h : String) (o : Output Js)
      → All ItemFits rs
      → latest show rs h ≡ some o
      → OutputFits o
  unfolding latest
  latest-OutputFits [] h o fit e = cc
  latest-OutputFits (r ∷ rs) h o (fit, rest) e = elim (Option-cases (latest show rs h)) [
    | inl n ↦ elim (Bool-cases (host_name r.host == h)) [
      | inl same ↦
          let p : item show r ≡ o = ground (arith, n, same, e) in rw (← p) (item-OutputFits r fit)
      | inr differs ↦ absurd (ground (arith, n, differs, e))
    ]
    | inr (p, q) ↦
        let found : latest show rs h ≡ some o = ground (arith, q, e) in
        latest-OutputFits rs h o rest found
  ]

  -- Where a selected host is online and the answer is a list of items that the command's view expects,
  -- the panel renders after the command, whichever host's tab is then selected, with and without the
  -- switch "Raw JSON". An item is expected if it has an error, or no result, or a result of the type that
  -- api.ts declares, with more where api.ts leaves a field open: an `error` is no object and no list, the
  -- peers and the node of a status have the types of PeerNodeData, its users those of a profile, and the
  -- operator of the preferences is no object and no list.
  pub host_command-Renders :
      (api : List String → Outcome (Body (HostResult R))) (a : App Js) (rs : List (HostResult R))
      (error_of : Js → Option String) (raw : Bool) (st : Stream) (h : String) (o : Output Js)
      → 0 < length (online_selected_hosts a)
      → api (online_selected_hosts a) ≡ returned (array rs)
      → All ItemFits rs
      → (h == "") ≡ false
      → get (host_command (command_name k) show api a).console.output_data h ≡ some o
      → Renders (
          content s (
            panel_view error_of raw
              (record (host_command (command_name k) show api a).console {
                selected_output_host = some h;
              })
              st))
  unfolding collect_body
  host_command-Renders api a rs error_of raw st h o online got items named found =
      let (idle, last, _, _) = host_command_ends show (command_name k) api a in
      let outputs = (host_command_returned show (command_name k) api a (array rs) online got).0 in
      panel_view-Renders s k error_of raw _ st h o idle last refl named found (
        latest-OutputFits rs h o items
          (sym (get-collect show rs h) ∙ ap (λ d. get d h) (sym outputs) ∙ found))
