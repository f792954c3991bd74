-- ===== src/Controls.antt =====
-- The page as the user works it: the buttons, fields and selects of web-ui/src/components
-- (SidebarPanel.tsx, GraphControls.tsx, CommandOutputsPanel.tsx, Modal.tsx) and of the dialogs in
-- web-ui/src/App.tsx, each with what it shows and what using it does. `min`, `max` and placeholders of
-- fields, which only advise the user, are left out.
pub mod SidebarControls
pub mod GraphButtons
pub mod DialogFields
pub mod PanelFrame
pub mod WholePage
pub mod Uses
pub mod Reached
pub mod Commands
use tsymbiote.Prelude.{◌≡◌, String, Bool, true, false, ◌==◌, if◌then◌else◌}
use tsymbiote.Prelude.JsSet.{has}
use tsymbiote.Prelude.Dict.{Dict, keys}
use tsymbiote.System.{System}

-- CommandButton, CheckboxListItem and ToggleSwitch, FormInput, FormSelect, and the Enter key in a
-- Modal. A select has the label of each value.
pub data Control (P : Type 0) : Type 0 where
  button : (text : String) → (enabled : Bool) → (press : P → P) → Control P
  checkbox : (label : String) → (checked : Bool) → (change : P → P) → Control P
  input : (value : String) → (change : String → P → P) → Control P
  select : (value : String) → (options : Dict String) → (change : String → P → P) → Control P
  enter_key : (submit : P → P) → Control P

-- What the user can do with a control: a button is pressed where it is enabled, any text is typed, and
-- one of the options is chosen.
pub data Use {P : Type 0} (p : P) : Control P → P → Type 0 where
  pressed :
      (text : String) {enabled : Bool} {f : P → P}
      → enabled ≡ true
      → Use p (button text enabled f) (f p)
  clicked : (label : String) {checked : Bool} {f : P → P} → Use p (checkbox label checked f) (f p)
  typed : {value : String} (t : String) {f : String → P → P} → Use p (input value f) (f t p)
  chosen :
      {value : String} {options : Dict String} (o : String) {f : String → P → P}
      → has (keys options) o ≡ true
      → Use p (select value options f) (f o p)
  entered : {f : P → P} → Use p (enter_key f) (f p)

-- The app, with the state that concerns only what is shown.
pub record Page (T : Type 0) : Type 0 where
  pub system : System T
  pub host_search_filter : String
  pub target_search_filter : String
  pub show_ping_settings : Bool
  pub show_raw_json : Bool

-- What the page is built for and where it runs: REDACT_NODE_TITLES, String.toLowerCase, and whether
-- the browser makes a WebSocket.
pub record Browser : Type 0 where
  pub redact_node_titles : Bool
  pub lower : String → String
  pub creates_socket : Bool

abbrev pub initial_page : {T : Type 0} → System T → Page T
initial_page s = record {
  system = s;
  host_search_filter = "";
  target_search_filter = "";
  show_ping_settings = false;
  show_raw_json = false;
}

abbrev pub on_system : {T : Type 0} → (System T → System T) → Page T → Page T
on_system f p = record p { system = f p.system }
