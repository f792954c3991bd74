-- ===== src/HostCommands/Outputs.antt =====
-- What the outputs are after a command.
use tsymbiote.Prelude.{
  ◌<◌, String, ◌≡◌, refl, ◌∙◌, ◌⊎◌, inl, inr, true, false, Option, none, some, List, [], ◌∷◌, arith,
  ◌==◌, nat_eq, if◌then◌else◌, Bool-cases, length, or_else,
}
use tsymbiote.Prelude.Dict.{Dict, get, put, get-put}
use tsymbiote.Api.{Body, HostResult, Outcome, returned, thrown}
use tsymbiote.Console.{Output, failed, App, show_results, begin, online_selected_hosts}
use tsymbiote.Stream.{cancel_streaming}
use tsymbiote.HostCommands.{host_name, error_text, collect, collect_body, finish, host_command}

module _ {R T : Type 0} (show : Option R → Output T) where
  -- What one item of the answer puts into the outputs.
  abbrev pub item : HostResult R → Output T
  item r = elim (error_text r.error) [ some e ↦ failed e | none ↦ show r.result ]

  -- The output of the last item for the host.
  unfoldable pub latest : List (HostResult R) → String → Option (Output T)
  latest [] h = none
  latest (r ∷ rs) h = elim (latest rs h) [
    | some o ↦ some o
    | none ↦ if host_name r.host == h then some (item r) else none
  ]

  get-collect_from :
      (d : Dict (Output T)) (rs : List (HostResult R)) (h : String)
      → get (collect show d rs) h ≡ or_else (latest rs h) (get d h)
  unfolding collect latest
  get-collect_from d [] h = refl
  get-collect_from d (r ∷ rs) h =
      get-collect_from (put d (host_name r.host) (item r)) rs h
      ∙ rw (get-put d (host_name r.host) h (item r)) (ground arith)

  -- Each host's output is that of the last item of the answer for it, and a host without an item
  -- has none. An item without a host counts for "unknown".
  pub get-collect :
      (rs : List (HostResult R)) (h : String) → get (collect show [] rs) h ≡ latest rs h
  get-collect rs h = get-collect_from [] rs h ∙ (unfold get in ground arith)

  -- However a command ends, it is no longer loading, its name is the last command, the stream was
  -- cancelled without a message, and the selection is as it was.
  pub host_command_ends :
      (name : String) (api : List String → Outcome (Body (HostResult R))) (s : App T)
      → ((host_command name show api s).console.status_loading ≡ false)
        × ((host_command name show api s).console.last_command ≡ name)
        × ((host_command name show api s).stream ≡ cancel_streaming false s.stream)
        × ((host_command name show api s).selection ≡ s.selection)
  unfolding host_command begin show_results
  host_command_ends name api s = elim (Bool-cases (nat_eq (length (online_selected_hosts s)) 0)) [
    | inl e ↦ rw e (refl, refl, refl, refl)
    | inr e ↦ rw e (ends (api (online_selected_hosts s)))
  ]
    where
      ends :
          (o : Outcome (Body (HostResult R)))
          → ((finish show o (begin name s)).console.status_loading ≡ false)
            × ((finish show o (begin name s)).console.last_command ≡ name)
            × ((finish show o (begin name s)).stream ≡ cancel_streaming false s.stream)
            × ((finish show o (begin name s)).selection ≡ s.selection)
      ends (returned body) = (refl, refl, refl, refl)
      ends (thrown m) = (refl, refl, refl, refl)

  -- With some selected host online, an answer replaces the outputs and opens the panel.
  pub host_command_returned :
      (name : String) (api : List String → Outcome (Body (HostResult R))) (s : App T)
      (body : Body (HostResult R))
      → 0 < length (online_selected_hosts s)
      → api (online_selected_hosts s) ≡ returned body
      → ((host_command name show api s).console.output_data ≡ collect_body show body)
        × ((host_command name show api s).console.status_panel_open ≡ true)
  unfolding host_command begin show_results
  host_command_returned name api s body some_online got =
      elim (Bool-cases (nat_eq (length (online_selected_hosts s)) 0)) [
        | inl e ↦ absurd (ground (arith, e, some_online))
        | inr e ↦ rw e (rw got (refl, refl))
      ]

  -- With no selected host online, or an answer that throws, the command is named as the last one
  -- while the outputs, the tab and the panel stay those of the command before.
  host_command_keeps_outputs :
      (name : String) (api : List String → Outcome (Body (HostResult R))) (s : App T)
      → (online_selected_hosts s ≡ []) ⊎ ((m : String) × (api (online_selected_hosts s) ≡ thrown m))
      → ((host_command name show api s).console.last_command ≡ name)
        × ((host_command name show api s).console.output_data ≡ s.console.output_data)
        × ((host_command name show api s).console.selected_output_host
            ≡ s.console.selected_output_host)
        × ((host_command name show api s).console.status_panel_open ≡ s.console.status_panel_open)
  unfolding host_command begin
  host_command_keeps_outputs name api s (inl none_online) = rw none_online (refl, refl, refl, refl)
  host_command_keeps_outputs name api s (inr (m, got)) =
      elim (Bool-cases (nat_eq (length (online_selected_hosts s)) 0)) [
        | inl e ↦ rw e (refl, refl, refl, refl)
        | inr e ↦ rw e (rw got (refl, refl, refl, refl))
      ]
