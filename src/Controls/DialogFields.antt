-- ===== src/Controls/DialogFields.antt =====
-- The two dialogs of web-ui/src/App.tsx, in the frame of web-ui/src/components/Modal.tsx, whose button
-- to close has an icon only.
use tsymbiote.Prelude.{String, true, not, ◌||◌, ◌&&◌, List, [], ◌∷◌, ◌++◌, ◌==◌, if◌then◌else◌}
use tsymbiote.Prelude.Dict.{Dict}
use tsymbiote.Api.{PprofType, profile, allocs, block, heap, mutex, threadcreate, goroutine}
use tsymbiote.Console.{Console, close_query_dns_modal, close_pprof_modal}
use tsymbiote.Dialogs.{is_blank, needs_duration, change_pprof_type}
use tsymbiote.System.{start_query_dns, submit_pprof}
use tsymbiote.System.Events.{set_console}
use tsymbiote.Controls.{Control, button, input, select, enter_key, Page, on_system}

abbrev query_types : Dict String
query_types =
    ("A", "A")
    ∷ ("AAAA", "AAAA")
    ∷ ("CNAME", "CNAME")
    ∷ ("MX", "MX")
    ∷ ("NS", "NS")
    ∷ ("PTR", "PTR")
    ∷ ("SOA", "SOA")
    ∷ ("SRV", "SRV")
    ∷ ("TXT", "TXT")
    ∷ []

abbrev pprof_types : Dict String
pprof_types =
    ("profile", "Profile (CPU)")
    ∷ ("heap", "Heap")
    ∷ ("allocs", "Allocs")
    ∷ ("goroutine", "Goroutine")
    ∷ ("block", "Block")
    ∷ ("mutex", "Mutex")
    ∷ ("threadcreate", "Thread Create")
    ∷ []

-- The texts of the type PprofType, of which the options have no other.
abbrev pprof_type_text : PprofType → String
pprof_type_text profile = "profile"
pprof_type_text allocs = "allocs"
pprof_type_text block = "block"
pprof_type_text heap = "heap"
pprof_type_text mutex = "mutex"
pprof_type_text threadcreate = "threadcreate"
pprof_type_text goroutine = "goroutine"

unfoldable pub pprof_type_of : String → PprofType
pprof_type_of t =
    if t == "heap"
    then heap
    else if t == "allocs"
    then allocs
    else if t == "goroutine"
    then goroutine
    else if t == "block"
    then block
    else if t == "mutex"
    then mutex
    else if t == "threadcreate"
    then threadcreate
    else profile

module _ {T : Type 0} where
  abbrev console : Page T → Console T
  console p = p.system.ui.app.console

  abbrev pub on_page_console : (Console T → Console T) → Page T → Page T
  on_page_console f = on_system (set_console f)

  unfoldable pub query_dns_controls : Page T → List (Control (Page T))
  query_dns_controls p =
      enter_key (λ q.
        if not (is_blank (console q).dns_name) && not (console q).status_loading
        then on_system start_query_dns q
        else q)
      ∷ button "" true (on_page_console close_query_dns_modal)
      ∷ input (console p).dns_name (λ t. on_page_console (λ c. record c { dns_name = t }))
      ∷ select (console p).dns_query_type query_types
          (λ t. on_page_console (λ c. record c { dns_query_type = t }))
      ∷ button "Cancel" true (on_page_console close_query_dns_modal)
      ∷ button "Query" (not (is_blank (console p).dns_name || (console p).status_loading))
          (on_system start_query_dns)
      ∷ []

  unfoldable pub pprof_fields : Page T → List (Control (Page T))
  unfolding pprof_type_of
  pprof_fields p =
      select (pprof_type_text (console p).pprof_type) pprof_types
        (λ t. on_page_console (change_pprof_type (pprof_type_of t)))
      ∷ (if needs_duration (console p).pprof_type
          then input (console p).pprof_duration
              (λ t. on_page_console (λ c. record c { pprof_duration = t }))
            ∷ []
          else [])

  unfoldable pub pprof_controls : Page T → List (Control (Page T))
  unfolding pprof_fields
  pprof_controls p =
      enter_key (λ q. if not (console q).status_loading then on_system submit_pprof q else q)
        ∷ button "" true (on_page_console close_pprof_modal)
        ∷ pprof_fields p
      ++ button "Cancel" true (on_page_console close_pprof_modal)
        ∷ button "Start" (not (console p).status_loading) (on_system submit_pprof)
        ∷ []
