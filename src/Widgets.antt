-- ===== src/Widgets.antt =====
-- The rows, lists and badges of web-ui/src/components/UIComponents.tsx, of which the views of the
-- results and of a node are made.
pub mod Rendered
use tsymbiote.Prelude.{String, ◌+++◌, if◌then◌else◌}
use tsymbiote.Js.{Js, truthy}
use tsymbiote.Js.Jsx.{Ui, heading, label, text, badge, show_one, ◌<>◌, Texts, child, map_each}

-- The text of a badge and its colour; no text of a badge is empty.
abbrev pub badge_text : String → String → Ui
badge_text color s = show_one (badge color) <> show_one (text s)

-- StatusBadge
unfoldable pub status_badge :
    (value : Js) → (true_color false_color true_label false_label : String) → Ui
status_badge value true_color false_color true_label false_label =
    badge_text (if truthy value then true_color else false_color)
      (if truthy value then true_label else false_label)

-- StatusBadge with its defaults
unfoldable pub yes_no : Js → Ui
unfolding status_badge
yes_no value = status_badge value "bg-green-600" "bg-gray-600" "Yes" "No"

-- FieldRow with an element for its value
unfoldable pub row : String → Ui → Ui
row l u = show_one (label (l +++ ":")) <> u

module _ (t : Texts) where
  -- FieldRow
  unfoldable pub field_row : String → Js → Ui
  unfolding row
  field_row l value = row l (child t value)

  -- ListSection
  unfoldable pub list_section : String → Js → Ui
  list_section l items = show_one (label (l +++ ":")) <> map_each t items (λ item. child t item)

  -- TagBadges
  unfoldable pub tag_badges : Js → Ui
  tag_badges tags =
      show_one (label "Tags:")
      <> map_each t tags (λ tag. show_one (badge "bg-blue-600") <> child t tag)
