-- ===== src/Keyboard.antt =====
-- web-ui/src/hooks/useKeyboardShortcuts.ts: what a key does to the app. preventDefault is left out:
-- it concerns the browser only.
pub mod Cycle
pub mod Shortcuts
pub mod Kept
use tsymbiote.Prelude.{
  ℕ, zero, suc, ◌+◌, ◌-◌, ◌%◌, String, Bool, true, false, ◌||◌, ◌&&◌, not, Option, none, some, List,
  [], ◌∷◌, ◌++◌, ◌==◌, ltb, leb, nat_eq, if◌then◌else◌, length, get_elem?,
}
use tsymbiote.Prelude.Dict.{keys}
use tsymbiote.Constants.{min_height, pan_speed, default_layout, layout_options}
use tsymbiote.Panel.{Panel, expanded_height}
use tsymbiote.Selection.{reset_selection}
use tsymbiote.Console.{Console, App, close_query_dns_modal, close_pprof_modal, on_console}

pub data CameraMove : Type 0 where
  pan_down pan_up pan_right pan_left fit_nodes_in_view : CameraMove

-- `has_graph` is whether `graphRef.current` is set, and `camera` the calls of it, the first one
-- first; `placed` has the keys of `nodeRef`.
pub record Ui (T : Type 0) : Type 0 where
  pub app : App T
  pub panel : Panel
  pub layout_type : String
  pub graph_key : ℕ
  pub placed : List String
  pub has_graph : Bool
  pub camera : List CameraMove
  pub context_menu_open : Bool

pub record KeyEvent : Type 0 where
  pub key : String
  pub shift_key : Bool
  pub is_input_field : Bool

-- indexOf, findIndex: the index plus 1, and 0 for -1
unfoldable pub place : List String → String → ℕ
place [] x = 0
place (y ∷ ys) x =
    let rest = place ys x in if y == x then 1 else if nat_eq rest 0 then 0 else rest + 1

-- (currentIndex - 1 + n) % n with shift, (currentIndex + 1) % n without
unfoldable pub next_index : Bool → ℕ → ℕ → ℕ
next_index shift at n = if shift then (at + n - 2) % n else at % n

-- The entry after, or before, an entry.
unfoldable pub cycle : Bool → List String → String → Option String
unfolding place next_index
cycle shift xs x = get_elem? xs (next_index shift (place xs x) (length xs))

abbrev repeat : ℕ → CameraMove → List CameraMove
repeat zero m = []
repeat (suc n) m = m ∷ repeat n m

abbrev pub or_same : Option String → String → String
or_same none x = x
or_same (some y) x = y

module _ {T : Type 0} where
  -- handleEscapeKey
  unfoldable pub handle_escape_key : Ui T → Ui T
  handle_escape_key s =
      let c = s.app.console in
      let d = if c.show_query_dns_modal then close_query_dns_modal c else c in
      record s {
        context_menu_open = false;
        app = record s.app { console = if c.show_pprof_modal then close_pprof_modal d else d };
      }

  -- handleSpacebarKey
  unfoldable pub handle_spacebar_key : ℕ → Ui T → Ui T
  handle_spacebar_key inner_height s =
      if leb s.panel.status_panel_height min_height
      then record s {
        panel = record s.panel {
          status_panel_height =
              if ltb min_height s.panel.previous_panel_height
              then s.panel.previous_panel_height
              else expanded_height inner_height;
        };
      }
      else record s {
        panel = record s.panel {
          previous_panel_height = s.panel.status_panel_height;
          status_panel_height = min_height;
        };
      }

  unfoldable pub select_tab : Bool → List String → Option String → Console T → Console T
  unfolding cycle
  select_tab shift hosts none c = c
  select_tab shift hosts (some h) c =
      if ltb 1 (length hosts) && not (h == "")
      then record c { selected_output_host = some (or_same (cycle shift hosts h) h) }
      else c

  -- handleTabKey
  unfoldable pub handle_tab_key : Bool → Ui T → Ui T
  unfolding select_tab
  handle_tab_key shift s = record s {
    app = on_console (λ c. select_tab shift (keys c.output_data) c.selected_output_host c) s.app;
  }

  -- handleBacktickKey
  unfoldable pub handle_backtick_key : Bool → Ui T → Ui T
  unfolding cycle
  handle_backtick_key shift s = record s {
    layout_type = or_same (cycle shift layout_options s.layout_type) s.layout_type;
  }

  -- handleResetKey, and the effect that follows it
  unfoldable pub handle_reset_key : Ui T → Ui T
  handle_reset_key s = record s {
    placed = [];
    layout_type = default_layout;
    app = record s.app { selection = reset_selection s.app.selection };
    graph_key = s.graph_key + 1;
  }

  abbrev move : List CameraMove → Ui T → Ui T
  move ms s = if s.has_graph then record s { camera = s.camera ++ ms } else s

  -- handleFitKey
  unfoldable pub handle_fit_key : Ui T → Ui T
  handle_fit_key s = move (fit_nodes_in_view ∷ []) s

  -- handleWASDKeys
  unfoldable pub handle_wasd_keys : CameraMove → Ui T → Ui T
  handle_wasd_keys m s = move (repeat pan_speed m) s

-- the cases of the `switch` on the key
pub data Shortcut : Type 0 where
  spacebar tab backtick reset fit : Shortcut
  pan : CameraMove → Shortcut

unfoldable pub shortcut_of : String → Option Shortcut
shortcut_of key =
    if key == " "
    then some spacebar
    else if key == "Tab"
    then some tab
    else if key == "`"
    then some backtick
    else if (key == "r") || (key == "R")
    then some reset
    else if (key == "f") || (key == "F")
    then some fit
    else if (key == "w") || (key == "W")
    then some (pan pan_down)
    else if (key == "a") || (key == "A")
    then some (pan pan_right)
    else if (key == "s") || (key == "S")
    then some (pan pan_up)
    else if (key == "d") || (key == "D")
    then some (pan pan_left)
    else none

module _ {T : Type 0} where
  unfoldable pub run_shortcut : ℕ → Bool → Shortcut → Ui T → Ui T
  unfolding handle_spacebar_key handle_tab_key handle_backtick_key handle_reset_key handle_fit_key
      handle_wasd_keys
  run_shortcut inner_height shift spacebar s = handle_spacebar_key inner_height s
  run_shortcut inner_height shift tab s =
      if s.app.console.status_panel_open then handle_tab_key shift s else s
  run_shortcut inner_height shift backtick s = handle_backtick_key shift s
  run_shortcut inner_height shift reset s = handle_reset_key s
  run_shortcut inner_height shift fit s = handle_fit_key s
  run_shortcut inner_height shift (pan m) s = handle_wasd_keys m s

  unfoldable pub run_any : ℕ → Bool → Option Shortcut → Ui T → Ui T
  unfolding run_shortcut
  run_any inner_height shift none s = s
  run_any inner_height shift (some k) s = run_shortcut inner_height shift k s

  abbrev pub modal_open : Ui T → Bool
  modal_open s = s.app.console.show_query_dns_modal || s.app.console.show_pprof_modal

  -- handleKeyDown
  unfoldable pub handle_key_down : ℕ → KeyEvent → Ui T → Ui T
  unfolding handle_escape_key run_any shortcut_of
  handle_key_down inner_height e s =
      if e.key == "Escape"
      then handle_escape_key s
      else if e.is_input_field || modal_open s
      then s
      else run_any inner_height e.shift_key (shortcut_of e.key) s
