-- ===== src/Panel.antt =====
-- web-ui/src/hooks/usePanelResize.ts: the height of the output panel, minimising and dragging.
-- `inner_height` is window.innerHeight at the event. The app passes no config, so the default
-- height is `min_height` and the expanded percentage is one half.
pub mod Heights
use tsymbiote.Prelude.{ℕ, ◌+◌, ◌-◌, ◌/◌, Bool, true, false, ◌&&◌, ltb, leb, if◌then◌else◌}
use tsymbiote.Constants.{min_height, min_viewport_margin}

pub record Panel : Type 0 where
  pub status_panel_height : ℕ
  pub previous_panel_height : ℕ
  pub is_dragging : Bool

-- Math.floor(window.innerHeight * 0.5)
abbrev pub expanded_height : ℕ → ℕ
expanded_height inner_height = inner_height / 2

-- the three `useState` calls
unfoldable pub initial_panel : ℕ → Panel
initial_panel inner_height = record {
  status_panel_height = min_height;
  previous_panel_height = expanded_height inner_height;
  is_dragging = false;
}

unfoldable pub is_minimized : Panel → Bool
is_minimized p = leb p.status_panel_height min_height

unfoldable pub toggle_minimize_panel : ℕ → Panel → Panel
unfolding is_minimized
toggle_minimize_panel inner_height p =
    if is_minimized p
    then record p {
      status_panel_height =
          if ltb min_height p.previous_panel_height
          then p.previous_panel_height
          else expanded_height inner_height;
    }
    else record p {
      previous_panel_height = p.status_panel_height;
      status_panel_height = min_height;
    }

unfoldable pub handle_resize_start : Panel → Panel
handle_resize_start p = record p { is_dragging = true }

-- A pointer may be above the window, `above k` being the coordinate -(k + 1).
pub data ClientY : Type 0 where
  at above : ℕ → ClientY

-- window.innerHeight - e.clientY. Below the window the source has a negative number here, and this
-- has 0: both fail the test for the margin.
abbrev pub new_height : ℕ → ClientY → ℕ
new_height inner_height (at y) = inner_height - y
new_height inner_height (above k) = inner_height + k + 1

-- newHeight >= MIN_VIEWPORT_MARGIN && newHeight <= window.innerHeight - MIN_VIEWPORT_MARGIN
abbrev pub fits : ℕ → ℕ → Bool
fits inner_height h = leb min_viewport_margin h && leb (h + min_viewport_margin) inner_height

-- The listeners are on the document only while `isDragging`.
unfoldable pub handle_resize_move : ℕ → ClientY → Panel → Panel
handle_resize_move inner_height y p =
    if p.is_dragging && fits inner_height (new_height inner_height y)
    then record p { status_panel_height = new_height inner_height y }
    else p

unfoldable pub handle_resize_end : Panel → Panel
handle_resize_end p = record p { is_dragging = false }
