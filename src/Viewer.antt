-- ===== src/Viewer.antt =====
-- web-ui/src/components/PprofViewer.tsx: a collected profile as a file to be downloaded. The browser's
-- object URLs are numbered in the order in which they are made; `live` are those not revoked, and
-- `blob` is what each one holds.
pub mod Links
use tsymbiote.Prelude.{
  ℕ, ◌+◌, String, ◌+++◌, Bool, true, false, not, Option, none, some, List, [], ◌∷◌, ◌==◌, nat_eq,
  if◌then◌else◌, filter,
}
use tsymbiote.Stream.{update}

-- getTypeLabel
unfoldable pub get_type_label : String → String
get_type_label t =
    if t == "profile"
    then "CPU Profile"
    else if t == "heap"
    then "Heap Profile"
    else if t == "allocs"
    then "Allocations Profile"
    else if t == "goroutine"
    then "Goroutine Profile"
    else if t == "block"
    then "Block Profile"
    else if t == "mutex"
    then "Mutex Profile"
    else if t == "threadcreate"
    then "Thread Create Profile"
    else if t == "trace"
    then "Trace"
    else if t == "cmdline"
    then "Command Line"
    else "Pprof - " +++ t

-- getFileExtension
unfoldable pub get_file_extension : String → String
get_file_extension t = if t == "trace" then "trace" else "pprof"

-- the `download` attribute
unfoldable pub file_name : String → String → String
unfolding get_file_extension
file_name host t = host +++ "-" +++ t +++ "." +++ get_file_extension t

-- The fields of `data` that the effect reads: `error`, if it is truthy, and `data`.
pub record ViewerData (T : Type 0) : Type 0 where
  pub has_error : Bool
  pub file : Option T

pub record Viewer (T : Type 0) : Type 0 where
  pub shown : ViewerData T
  pub profile_url : Option ℕ
  pub cleanup : Option ℕ
  pub live : List ℕ
  pub made : ℕ
  pub blob : ℕ → Option T

-- URL.revokeObjectURL
abbrev pub revoke : Option ℕ → List ℕ → List ℕ
revoke none live = live
revoke (some u) live = filter (λ v. not (nat_eq v u)) live

module _ {T : Type 0} where
  -- what the effect's last run has returned, before the next run or on unmount
  unfoldable pub run_cleanup : Viewer T → Viewer T
  run_cleanup s = record s { live = revoke s.cleanup s.live; cleanup = none }

  unfoldable pub create_url : Option T → Viewer T → Viewer T
  create_url none s = s
  create_url (some f) s = record s {
    blob = update s.blob s.made (some f);
    live = s.made ∷ s.live;
    profile_url = some s.made;
    cleanup = some s.made;
    made = s.made + 1;
  }

  abbrev pub unless : Bool → Viewer T → Viewer T → Viewer T
  unless true t s = s
  unless false t s = t

  -- the effect on [data]
  unfoldable pub run_effect : Viewer T → Viewer T
  unfolding create_url
  run_effect s = unless s.shown.has_error (create_url s.shown.file s) s

  -- a render with other data, and the effect after it
  unfoldable pub show_data : ViewerData T → Viewer T → Viewer T
  unfolding run_cleanup run_effect
  show_data d s = run_effect (record (run_cleanup s) { shown = d })

  abbrev pub initial_viewer : ViewerData T → Viewer T
  initial_viewer d = record {
    shown = d;
    profile_url = none;
    cleanup = none;
    live = [];
    made = 0;
    blob = λ u. none;
  }

  -- the first render
  unfoldable pub mount : ViewerData T → Viewer T
  unfolding run_effect
  mount d = run_effect (initial_viewer d)
