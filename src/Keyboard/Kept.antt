-- ===== src/Keyboard/Kept.antt =====
-- What every key keeps, of the selection, the layout, the panel, the stream and the outputs.
use tsymbiote.Prelude.{
  ℕ, ◌≤◌, String, ◌≡◌, refl, inl, inr, Bool, true, false, ◌||◌, Option, none, some, List, arith,
  ◌==◌, if◌then◌else◌, Bool-cases,
}
use tsymbiote.Prelude.JsSet.{has, IsUnique}
use tsymbiote.Prelude.Dict.{keys}
use tsymbiote.Constants.{layout_options, default_layout}
use tsymbiote.Panel.{toggle_minimize_panel}
use tsymbiote.Panel.Heights.{InRange, Step-InRange, toggled}
use tsymbiote.Selection.Consistency.{IsConsistent, reset, Step-IsConsistent}
use tsymbiote.Console.{Console, close_query_dns_modal, close_pprof_modal}
use tsymbiote.Keyboard.{
  Ui, KeyEvent, cycle, Shortcut, spacebar, tab, backtick, fit, pan, shortcut_of, run_shortcut,
  run_any, select_tab, or_same, handle_escape_key, handle_spacebar_key, handle_tab_key,
  handle_backtick_key, handle_reset_key, handle_fit_key, handle_wasd_keys, modal_open,
  handle_key_down,
}
use tsymbiote.Keyboard.Cycle.{cycle-cycle}

layouts_distinct : IsUnique layout_options
unfolding has
layouts_distinct = (
  refl,
  (
    refl,
    (
      refl,
      (
        refl,
        (refl, (refl, (refl, (refl, (refl, (refl, (refl, (refl, (refl, (refl, (refl, tt))))))))))),
      ),
    ),
  ),
)

backtick_layout :
    (shift : Bool) (x : String)
    → has layout_options x ≡ true
    → has layout_options (or_same (cycle shift layout_options x) x) ≡ true
backtick_layout shift x known =
    let (y, forth, shown, back) = cycle-cycle shift layout_options x layouts_distinct known in
    rw forth shown

pub default_known : has layout_options default_layout ≡ true
unfolding has
default_known = refl

module _ {T : Type 0} where
  -- The selection is consistent, the layout is one of the options, and the panel is in range.
  pub record IsKept (tallest : ℕ) (s : Ui T) : Type 0 where
    pub consistent : IsConsistent s.app.selection
    pub layout : has layout_options s.layout_type ≡ true
    pub in_range : InRange tallest s.panel

  pub spacebar_panel :
      (i : ℕ) (s : Ui T)
      → handle_spacebar_key i s ≡ record s { panel = toggle_minimize_panel i s.panel }
  unfolding handle_spacebar_key toggle_minimize_panel
  spacebar_panel i s = ground arith

  tab_outputs :
      (shift : Bool) (hosts : List String) (o : Option String) (c : Console T)
      → (select_tab shift hosts o c).output_data ≡ c.output_data
  unfolding select_tab
  tab_outputs shift hosts none c = refl
  tab_outputs shift hosts (some h) c = ground arith

  tab-IsKept :
      (tallest : ℕ) (shift b : Bool) (s : Ui T)
      → IsKept tallest s
      → IsKept tallest (if b then handle_tab_key shift s else s)
        × ((if b then handle_tab_key shift s else s).app.stream ≡ s.app.stream)
        × ((if b then handle_tab_key shift s else s).app.console.output_data
            ≡ s.app.console.output_data)
  unfolding handle_tab_key
  tab-IsKept tallest shift true s kept = (
    record { consistent = kept.consistent; layout = kept.layout; in_range = kept.in_range },
    refl,
    tab_outputs shift (keys s.app.console.output_data) s.app.console.selected_output_host
        s.app.console,
  )
  tab-IsKept tallest shift false s kept = (kept, refl, refl)

  run_shortcut-IsKept :
      (tallest i : ℕ) (shift : Bool) (k : Shortcut) (s : Ui T)
      → 200 ≤ i
      → i ≤ tallest
      → IsKept tallest s
      → IsKept tallest (run_shortcut i shift k s)
        × ((run_shortcut i shift k s).app.stream ≡ s.app.stream)
        × ((run_shortcut i shift k s).app.console.output_data ≡ s.app.console.output_data)
  unfolding run_shortcut handle_backtick_key handle_reset_key handle_fit_key handle_wasd_keys
  run_shortcut-IsKept tallest i shift spacebar s lo hi kept = rw (spacebar_panel i s) (
    record {
      consistent = kept.consistent;
      layout = kept.layout;
      in_range = Step-InRange tallest i lo hi toggled kept.in_range;
    },
    refl,
    refl,
  )
  run_shortcut-IsKept tallest i shift tab s lo hi kept =
      tab-IsKept tallest shift s.app.console.status_panel_open s kept
  run_shortcut-IsKept tallest i shift backtick s lo hi kept = (
    record {
      consistent = kept.consistent;
      layout = backtick_layout shift s.layout_type kept.layout;
      in_range = kept.in_range;
    },
    refl,
    refl,
  )
  run_shortcut-IsKept tallest i shift Shortcut.reset s lo hi kept = (
    record {
      consistent = Step-IsConsistent reset kept.consistent;
      layout = default_known;
      in_range = kept.in_range;
    },
    refl,
    refl,
  )
  run_shortcut-IsKept tallest i shift fit s lo hi kept = ground (arith, kept)
  run_shortcut-IsKept tallest i shift (pan m) s lo hi kept = ground (arith, kept)

  run_any-IsKept :
      (tallest i : ℕ) (shift : Bool) (o : Option Shortcut) (s : Ui T)
      → 200 ≤ i
      → i ≤ tallest
      → IsKept tallest s
      → IsKept tallest (run_any i shift o s)
        × ((run_any i shift o s).app.stream ≡ s.app.stream)
        × ((run_any i shift o s).app.console.output_data ≡ s.app.console.output_data)
  unfolding run_any
  run_any-IsKept tallest i shift none s lo hi kept = (kept, refl, refl)
  run_any-IsKept tallest i shift (some k) s lo hi kept =
      run_shortcut-IsKept tallest i shift k s lo hi kept

  escape-IsKept :
      (tallest : ℕ) (s : Ui T)
      → IsKept tallest s
      → IsKept tallest (handle_escape_key s)
        × ((handle_escape_key s).app.stream ≡ s.app.stream)
        × ((handle_escape_key s).app.console.output_data ≡ s.app.console.output_data)
  unfolding handle_escape_key close_query_dns_modal close_pprof_modal
  escape-IsKept tallest s kept = (
    record { consistent = kept.consistent; layout = kept.layout; in_range = kept.in_range },
    refl,
    ground arith,
  )

  pub handle_key_down-IsKept :
      (tallest i : ℕ) (e : KeyEvent) (s : Ui T)
      → 200 ≤ i
      → i ≤ tallest
      → IsKept tallest s
      → IsKept tallest (handle_key_down i e s)
        × ((handle_key_down i e s).app.stream ≡ s.app.stream)
        × ((handle_key_down i e s).app.console.output_data ≡ s.app.console.output_data)
  unfolding handle_key_down
  handle_key_down-IsKept tallest i e s lo hi kept = elim (Bool-cases (e.key == "Escape")) [
    | inl q ↦ rw q (escape-IsKept tallest s kept)
    | inr q ↦ rw q (elim (Bool-cases (e.is_input_field || modal_open s)) [
      | inl r ↦ rw r (kept, refl, refl)
      | inr r ↦ rw r (run_any-IsKept tallest i e.shift_key (shortcut_of e.key) s lo hi kept)
    ])
  ]
