-- ===== src/Tests/Keys.antt =====
-- Examples for the keyboard.
use tsymbiote.Prelude.{
  ℕ, ◌<◌, String, ◌≡◌, ◌≢◌, refl, true, false, false≢true, some, [], ◌∷◌, arith, eq_iff, length,
}
use tsymbiote.Prelude.JsSet.{has, IsUnique}
use tsymbiote.Prelude.Dict.{keys}
use tsymbiote.Constants.{default_layout}
use tsymbiote.Console.{Console, text}
use tsymbiote.Keyboard.{Ui, KeyEvent}
use tsymbiote.Keyboard.Shortcuts.{press, tab_back}
use tsymbiote.Tests.Data.{app, console}

abbrev two_tabs : Console ℕ
two_tabs = record console {
  output_data = ("h1", text "up") ∷ ("h2", text "down") ∷ [];
  selected_output_host = some "h1";
  status_panel_open = true;
}

abbrev ui : Ui ℕ
ui = record {
  app = record app { console = two_tabs };
  panel = record { status_panel_height = 180; previous_panel_height = 400; is_dragging = false };
  layout_type = default_layout;
  graph_key = 0;
  placed = "h1" ∷ [];
  has_graph = true;
  camera = [];
  context_menu_open = true;
}

abbrev asking : Ui ℕ
asking = record ui { app = record app { console = record two_tabs { show_pprof_modal = true } } }

abbrev reset_key : KeyEvent
reset_key = record { key = "R"; shift_key = true; is_input_field = false }

reset_is_no_escape : ◌≢◌ {A = String} "R" "Escape"
reset_is_no_escape p = false≢true ((eq_iff "R" "Escape").1 p)

distinct_tabs : IsUnique (keys two_tabs.output_data)
unfolding has keys
distinct_tabs = (refl, (refl, tt))

tab_is_shown : has (keys two_tabs.output_data) "h1" ≡ true
unfolding has keys
tab_is_shown = refl

no_blank_tab : has (keys two_tabs.output_data) "" ≡ false
unfolding has keys
no_blank_tab = refl

several_tabs : 1 < length (keys two_tabs.output_data)
unfolding keys
several_tabs = ground arith

tab_back_example :
    (press 900 "Tab" true (press 900 "Tab" false ui)).app.console.selected_output_host ≡ some "h1"
tab_back_example =
    tab_back 900 false ui "h1" refl refl refl distinct_tabs tab_is_shown no_blank_tab several_tabs
