-- ===== src/Keyboard/Shortcuts.antt =====
-- What the shortcuts do, and what no key does.
use tsymbiote.Prelude.{
  ℕ, ◌<◌, String, ◌≡◌, refl, sym, ap, ◌∙◌, ◌≢◌, ◌⊎◌, inl, inr, Bool, true, false, false≢true, not,
  some, List, arith, ◌==◌, eq_iff, ==_of_ne, ltb, Bool-cases, length,
}
use tsymbiote.Prelude.JsSet.{has, IsUnique}
use tsymbiote.Prelude.Dict.{keys}
use tsymbiote.Panel.{toggle_minimize_panel}
use tsymbiote.Console.{on_console, close_query_dns_modal, close_pprof_modal}
use tsymbiote.Keyboard.{
  Ui, KeyEvent, cycle, shortcut_of, run_shortcut, run_any, select_tab, handle_escape_key,
  handle_spacebar_key, handle_tab_key, modal_open, handle_key_down,
}
use tsymbiote.Keyboard.Cycle.{cycle-cycle}

name_filled :
    (xs : List String) (h : String) → has xs h ≡ true → has xs "" ≡ false → (h == "") ≡ false
name_filled xs h known no_blank = elim (Bool-cases (h == "")) [
  | inl e ↦ absurd (false≢true (sym no_blank ∙ ap (has xs) (sym ((eq_iff h "").0 e)) ∙ known))
  | inr e ↦ e
]

module _ {T : Type 0} where
  -- A key pressed outside the input fields.
  abbrev pub press : ℕ → String → Bool → Ui T → Ui T
  press i key shift s =
      handle_key_down i (record { key = key; shift_key = shift; is_input_field = false }) s

  -- While the user types in a field, or a dialog is open, no key but Escape does anything.
  pub typing_is_ignored :
      (i : ℕ) (e : KeyEvent) (s : Ui T)
      → e.key ≢ "Escape"
      → (e.is_input_field ≡ true) ⊎ (modal_open s ≡ true)
      → handle_key_down i e s ≡ s
  unfolding handle_key_down
  typing_is_ignored i e s ne (inl typing) = rw (==_of_ne e.key "Escape" ne) (rw typing refl)
  typing_is_ignored i e s ne (inr modal) = rw (==_of_ne e.key "Escape" ne) (ground (arith, modal))

  -- Escape closes the context menu and both dialogs, wherever the focus is, and leaves the
  -- selection, the outputs, the stream and the panel as they were.
  escape_closes :
      (i : ℕ) (shift typing : Bool) (s : Ui T)
      → let t =
          handle_key_down i
            (record { key = "Escape"; shift_key = shift; is_input_field = typing })
            s in
        (modal_open t ≡ false)
        × (t.context_menu_open ≡ false)
        × (t.app.selection ≡ s.app.selection)
        × (t.app.console.output_data ≡ s.app.console.output_data)
        × (t.app.stream ≡ s.app.stream)
        × (t.panel ≡ s.panel)
  unfolding handle_key_down handle_escape_key close_query_dns_modal close_pprof_modal
  escape_closes i shift typing s = ground arith

  -- The space bar does to the panel what its button does, and nothing else.
  spacebar_toggles :
      (i : ℕ) (shift : Bool) (s : Ui T)
      → modal_open s ≡ false
      → press i " " shift s ≡ record s { panel = toggle_minimize_panel i s.panel }
  unfolding handle_key_down shortcut_of run_shortcut handle_spacebar_key toggle_minimize_panel
  spacebar_toggles i shift s closed = ground arith

  with_tab : String → Ui T → Ui T
  with_tab h s = record s {
    app = on_console (λ c. record c { selected_output_host = some h }) s.app;
  }

  tab_step :
      (i : ℕ) (shift : Bool) (s : Ui T) (h y : String)
      → modal_open s ≡ false
      → s.app.console.status_panel_open ≡ true
      → s.app.console.selected_output_host ≡ some h
      → (h == "") ≡ false
      → ltb 1 (length (keys s.app.console.output_data)) ≡ true
      → cycle shift (keys s.app.console.output_data) h ≡ some y
      → press i "Tab" shift s ≡ with_tab y s
  unfolding handle_key_down shortcut_of run_shortcut handle_tab_key run_any select_tab with_tab
  tab_step i shift s h y closed open_panel chosen filled two step =
      rw closed (rw open_panel (rw chosen (rw filled (rw two (rw step refl)))))

  -- Tab and then Shift with Tab, or the other way round, lead back to the tab of a host that is
  -- shown, if the panel is open and shows at least two hosts, each with a name.
  pub tab_back :
      (i : ℕ) (shift : Bool) (s : Ui T) (h : String)
      → modal_open s ≡ false
      → s.app.console.status_panel_open ≡ true
      → s.app.console.selected_output_host ≡ some h
      → IsUnique (keys s.app.console.output_data)
      → has (keys s.app.console.output_data) h ≡ true
      → has (keys s.app.console.output_data) "" ≡ false
      → 1 < length (keys s.app.console.output_data)
      → (press i "Tab" (not shift) (press i "Tab" shift s)).app.console.selected_output_host
        ≡ some h
  unfolding with_tab
  tab_back i shift s h closed open_panel chosen u known no_blank two =
      let (y, forth, shown, back) = cycle-cycle shift (keys s.app.console.output_data) h u known in
      rw
        (tab_step i shift s h y closed open_panel chosen
          (name_filled (keys s.app.console.output_data) h known no_blank) (ground arith) forth)
        (ap (λ (t : Ui T). t.app.console.selected_output_host)
          (tab_step i (not shift) (with_tab y s) y h closed open_panel refl
            (name_filled (keys s.app.console.output_data) y shown no_blank) (ground arith) back))
