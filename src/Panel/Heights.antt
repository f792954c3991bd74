-- ===== src/Panel/Heights.antt =====
-- What the panel's height can be, whatever the user does.
use tsymbiote.Prelude.{ℕ, ◌+◌, ◌-◌, ◌≤◌, ◌<◌, ◌≡◌, ◌↔◌, ◌⊎◌, true, false, arith}
use tsymbiote.Constants.{min_height, min_viewport_margin}
use tsymbiote.Panel.{
  Panel, initial_panel, is_minimized, toggle_minimize_panel, handle_resize_start, ClientY, at,
  new_height, handle_resize_move, handle_resize_end, expanded_height,
}

-- One event at the panel, in a window of the given height.
pub data Step (inner_height : ℕ) (p : Panel) : Panel → Type 0 where
  toggled : Step inner_height p (toggle_minimize_panel inner_height p)
  pressed : Step inner_height p (handle_resize_start p)
  moved : (y : ClientY) → Step inner_height p (handle_resize_move inner_height y p)
  released : Step inner_height p (handle_resize_end p)

-- Any number of events, in a window that stays between 200 and `tallest` pixels high.
pub data Reach (tallest : ℕ) : Panel → Type 0 where
  opened :
      (inner_height : ℕ)
      → 200 ≤ inner_height
      → inner_height ≤ tallest
      → Reach tallest (initial_panel inner_height)
  next :
      {p q : Panel} (inner_height : ℕ)
      → 200 ≤ inner_height
      → inner_height ≤ tallest
      → Reach tallest p
      → Step inner_height p q
      → Reach tallest q

pub record InRange (tallest : ℕ) (p : Panel) : Type 0 where
  pub floor : min_viewport_margin ≤ p.status_panel_height
  pub ceiling : (p.status_panel_height ≤ min_height) ⊎ (p.status_panel_height ≤ tallest)
  pub previous : p.previous_panel_height ≤ tallest

pub Step-InRange :
    (tallest inner_height : ℕ) {p q : Panel}
    → 200 ≤ inner_height
    → inner_height ≤ tallest
    → Step inner_height p q
    → InRange tallest p
    → InRange tallest q
unfolding toggle_minimize_panel handle_resize_start handle_resize_move handle_resize_end
Step-InRange tallest inner_height a b toggled r = ground arith
Step-InRange tallest inner_height a b pressed r = ground arith
Step-InRange tallest inner_height a b (moved y) r = ground arith
Step-InRange tallest inner_height a b released r = ground arith

-- In a window that is never lower than 200 pixels nor higher than `tallest`, the panel's height
-- after any sequence of toggles, presses, moves and releases is at least the viewport margin, and
-- above the minimal height only up to `tallest`.
pub Reach-InRange : (tallest : ℕ) {p : Panel} → Reach tallest p → InRange tallest p
Reach-InRange tallest (opened i lo hi) = unfold initial_panel in ground arith
Reach-InRange tallest (next i lo hi before step) =
    Step-InRange tallest i lo hi step (Reach-InRange tallest before)

-- Minimising an expanded panel and restoring it gives the height it had, whatever the window's
-- height is by then.
pub toggle-toggle :
    (i j : ℕ) (p : Panel)
    → is_minimized p ≡ false
    → (is_minimized (toggle_minimize_panel i p) ≡ true)
      × ((toggle_minimize_panel j (toggle_minimize_panel i p)).status_panel_height
          ≡ p.status_panel_height)
unfolding toggle_minimize_panel
toggle-toggle i j p h = ground arith

-- A minimised panel is expanded by the toggle exactly if it has a larger height to go back to, or
-- the window is more than twice the minimal height.
pub toggle-expands_iff :
    (i : ℕ) (p : Panel)
    → is_minimized p ≡ true
    → (is_minimized (toggle_minimize_panel i p) ≡ false)
      ↔ ((min_height < p.previous_panel_height) ⊎ (min_height < expanded_height i))
unfolding toggle_minimize_panel
toggle-expands_iff i p h = (λ e. ground arith, λ e. ground arith)

-- A drag outside `isDragging`, or to a height that leaves less than the margin at either end, does
-- nothing; any other sets exactly the height under the pointer.
pub handle_resize_move_cases :
    (i : ℕ) (y : ClientY) (p : Panel)
    → ((p.is_dragging ≡ true)
        × (min_viewport_margin ≤ new_height i y)
        × (new_height i y + min_viewport_margin ≤ i)
        × (handle_resize_move i y p ≡ record p { status_panel_height = new_height i y }))
      ⊎ (((p.is_dragging ≡ false)
            ⊎ (new_height i y < min_viewport_margin)
            ⊎ (i < new_height i y + min_viewport_margin))
          × (handle_resize_move i y p ≡ p))
unfolding handle_resize_move
handle_resize_move_cases i y p = ground arith

-- Dragging can leave the panel lower than `min_height`: at every pointer position between the
-- viewport margin and the minimal height.
drag_below_min_height :
    (i h : ℕ) (p : Panel)
    → min_viewport_margin ≤ h
    → h < min_height
    → h + min_viewport_margin ≤ i
    → (handle_resize_move i (at (i - h)) (handle_resize_start p)).status_panel_height ≡ h
unfolding handle_resize_move handle_resize_start
drag_below_min_height i h p a b c = ground arith
