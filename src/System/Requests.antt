-- ===== src/System/Requests.antt =====
-- What a request under way means for the app, and the commands as single steps.
use tsymbiote.Prelude.{
  ℕ, ◌≡◌, ◌≢◌, refl, ◌∙◌, true, false, String, Option, List, [], ◌∷◌, ◌++◌, arith, nat_eq, length,
  if◌then◌else◌, Bool-cases, inl, inr,
}
use tsymbiote.Api.{Body, HostResult, Outcome}
use tsymbiote.Stream.Format.{Codec}
use tsymbiote.Loading.{Surroundings}
use tsymbiote.Console.{Output, result, App, stop_loading, online_selected_hosts, begin, on_console}
use tsymbiote.HostCommands.{
  host_command, finish, show_goroutines, fetch_status, fetch_prefs, fetch_drive_shares,
  fetch_dns_config, fetch_serve_config, fetch_app_conn_routes, fetch_goroutines,
}
use tsymbiote.System.{
  Command, status, prefs, drive_shares, dns_config, serve_config, app_conn_routes, goroutines,
  Pending, ask_hosts, Answer, System, on_app, receive, send, some_online, start_command,
  command_name,
}
use tsymbiote.System.Events.{Reach, command_enabled, ping_enabled, dns_enabled, pprof_enabled}
use tsymbiote.System.Invariant.{pending, only_one}
use tsymbiote.System.Sound.{Reach-IsSound}
use tsymbiote.System.Moves.{receive-IsEnded}

pending_of : (rs : List Pending) → rs ≢ [] → pending rs ≡ true
pending_of [] h = absurd (h refl)
pending_of (r ∷ rs) h = refl

module _ {T : Type 0} (w : Surroundings) (c : Codec) (tallest : ℕ) where
  -- In every reachable state in which a request is under way, the controls that send another one are
  -- all disabled.
  pub pending_disables :
      {s : System T}
      → Reach w c tallest s
      → s.requests ≢ []
      → (command_enabled s ≡ false)
        × (ping_enabled s ≡ false)
        × (dns_enabled s ≡ false)
        × (pprof_enabled s ≡ false)
  unfolding command_enabled ping_enabled dns_enabled pprof_enabled
  pending_disables {s} reached h =
      let on = (Reach-IsSound w c tallest reached).loading ∙ pending_of s.requests h in
      ground (arith, on)

  -- In every reachable state, whichever request is answered and whatever the answer: no request is left,
  -- and the app is not loading.
  pub receive_ends :
      {s : System T} (before : List Pending) (r : Pending) (after : List Pending) (a : Answer T r)
      → Reach w c tallest s
      → s.requests ≡ before ++ r ∷ after
      → let t = record (on_app (receive c.atob r a) s) { requests = before ++ after } in
        (t.requests ≡ []) × (t.ui.app.console.status_loading ≡ false)
  receive_ends {s} before r after a reached e = (
    only_one before after s.requests r e (Reach-IsSound w c tallest reached).one,
    (receive-IsEnded c.atob r a s.ui.app).stopped,
  )

module _ {T : Type 0} where
  -- A command as the single step that it is where nothing happens before the answer.
  unfoldable at_once :
      (String → Option String)
      → (k : Command) → ((hosts : List String) → Answer T (ask_hosts k hosts))
      → App T
      → App T
  at_once atob status api = fetch_status api
  at_once atob prefs api = fetch_prefs api
  at_once atob drive_shares api = fetch_drive_shares api
  at_once atob dns_config api = fetch_dns_config api
  at_once atob serve_config api = fetch_serve_config api
  at_once atob app_conn_routes api = fetch_app_conn_routes api
  at_once atob goroutines api = fetch_goroutines atob api

  host_command_online :
      {R : Type 0} (name : String) (show : Option R → Output T)
      (api : List String → Outcome (Body (HostResult R))) (s : System T)
      → some_online s ≡ true
      → finish show (api (online_selected_hosts s.ui.app)) (begin name s.ui.app)
        ≡ host_command name show api s.ui.app
  unfolding host_command
  host_command_online name show api s h =
      elim (Bool-cases (nat_eq (length (online_selected_hosts s.ui.app)) 0)) [
        | inl e ↦ absurd (ground (arith, h, e))
        | inr e ↦ rw e refl
      ]

  host_command_offline :
      {R : Type 0} (name : String) (show : Option R → Output T)
      (api : List String → Outcome (Body (HostResult R))) (s : System T)
      → some_online s ≡ false
      → on_console stop_loading (begin name s.ui.app) ≡ host_command name show api s.ui.app
  unfolding host_command
  host_command_offline name show api s h =
      elim (Bool-cases (nat_eq (length (online_selected_hosts s.ui.app)) 0)) [
        | inl e ↦ rw e refl
        | inr e ↦ absurd (ground (arith, h, e))
      ]

  at_once_online :
      (atob : String → Option String) (k : Command)
      (api : (hosts : List String) → Answer T (ask_hosts k hosts)) (s : System T)
      → some_online s ≡ true
      → receive atob
          (ask_hosts k (online_selected_hosts s.ui.app))
          (api (online_selected_hosts s.ui.app))
          (begin (command_name k) s.ui.app)
        ≡ at_once atob k api s.ui.app
  unfolding receive at_once command_name fetch_status fetch_prefs fetch_drive_shares
      fetch_dns_config fetch_serve_config fetch_app_conn_routes fetch_goroutines
  at_once_online atob status api s h = host_command_online "Status" result api s h
  at_once_online atob prefs api s h = host_command_online "Prefs" result api s h
  at_once_online atob drive_shares api s h = host_command_online "Drive Shares" result api s h
  at_once_online atob dns_config api s h = host_command_online "DNS Config" result api s h
  at_once_online atob serve_config api s h = host_command_online "Serve Config" result api s h
  at_once_online atob app_conn_routes api s h = host_command_online "AppConn Routes" result api s h
  at_once_online atob goroutines api s h =
      host_command_online "Goroutines" (show_goroutines atob) api s h

  at_once_offline :
      (atob : String → Option String) (k : Command)
      (api : (hosts : List String) → Answer T (ask_hosts k hosts)) (s : System T)
      → some_online s ≡ false
      → on_console stop_loading (begin (command_name k) s.ui.app) ≡ at_once atob k api s.ui.app
  unfolding at_once command_name fetch_status fetch_prefs fetch_drive_shares fetch_dns_config
      fetch_serve_config fetch_app_conn_routes fetch_goroutines
  at_once_offline atob status api s h = host_command_offline "Status" result api s h
  at_once_offline atob prefs api s h = host_command_offline "Prefs" result api s h
  at_once_offline atob drive_shares api s h = host_command_offline "Drive Shares" result api s h
  at_once_offline atob dns_config api s h = host_command_offline "DNS Config" result api s h
  at_once_offline atob serve_config api s h = host_command_offline "Serve Config" result api s h
  at_once_offline atob app_conn_routes api s h =
      host_command_offline "AppConn Routes" result api s h
  at_once_offline atob goroutines api s h =
      host_command_offline "Goroutines" (show_goroutines atob) api s h

  -- Starting a command and then, if it has sent a request, receiving the answer makes of the app what the
  -- command makes of it as a single step.
  start_command-at_once :
      (atob : String → Option String) (k : Command)
      (api : (hosts : List String) → Answer T (ask_hosts k hosts)) (s : System T)
      → (if some_online s
          then receive atob
              (ask_hosts k (online_selected_hosts s.ui.app))
              (api (online_selected_hosts s.ui.app))
              (start_command k s).ui.app
          else (start_command k s).ui.app)
        ≡ at_once atob k api s.ui.app
  unfolding start_command send
  start_command-at_once atob k api s = elim (Bool-cases (some_online s)) [
    | inl on ↦ rw on (at_once_online atob k api s on)
    | inr off ↦ rw off (at_once_offline atob k api s off)
  ]
