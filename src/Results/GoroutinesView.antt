-- ===== src/Results/GoroutinesView.antt =====
-- GoroutinesResultsContent; `decoded` makes a string of the characters of a text.
use tsymbiote.Prelude.{
  String, ◌+++◌, Option, none, some, List, [], ◌∷◌, length, if◌then◌else◌, ◌==◌,
}
use tsymbiote.Prelude.Text.{Text, codes}
use tsymbiote.Js.{Js, string, whole}
use tsymbiote.Js.Jsx.{Ui, heading, text, badge, nothing, show_one, ◌<>◌, Texts, child}
use tsymbiote.Goroutines.{ParsedGoroutine, parse_goroutines, get_state_color}
use tsymbiote.Results.{error_or_else}

-- typeof data === 'string' ? data : ''
abbrev pub stack_trace : Js → String
stack_trace (string s) = s
stack_trace x = ""

module _ (t : Texts) (decoded : Text → String) where
  -- {g.duration && …}
  unfoldable pub duration_text : Option Text → Ui
  duration_text none = nothing
  duration_text (some d) = child t (string (decoded d))

  unfoldable pub goroutine_card : ParsedGoroutine → Ui
  unfolding duration_text get_state_color
  goroutine_card g =
      show_one (text ("#" +++ decoded g.id))
      <> show_one (badge (get_state_color g.state))
      <> child t (string (decoded g.state))
      <> duration_text g.duration
      <> child t (string (decoded g.stack))

  unfoldable pub goroutine_cards : List ParsedGoroutine → Ui
  unfolding goroutine_card
  goroutine_cards [] = nothing
  goroutine_cards (g ∷ gs) = goroutine_card g <> goroutine_cards gs

  unfoldable pub stack_view : List ParsedGoroutine → Ui
  unfolding goroutine_cards
  stack_view gs =
      show_one (heading "Goroutines")
      <> show_one (text "(")
      <> child t (whole (length gs))
      <> show_one (text ")")
      <> goroutine_cards gs

  unfoldable pub goroutines_view : Js → Ui
  unfolding error_or_else stack_view parse_goroutines
  goroutines_view d = error_or_else t d (
      if stack_trace d == ""
      then show_one (text "No goroutine data available.")
      else stack_view (parse_goroutines (codes (stack_trace d))))
