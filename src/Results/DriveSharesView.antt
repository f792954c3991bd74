-- ===== src/Results/DriveSharesView.antt =====
-- DriveSharesResultsContent
use tsymbiote.Prelude.{Bool, false, not, ◌&&◌, nat_eq, if◌then◌else◌}
use tsymbiote.Js.{
  Js, number, string, array, no_element, field, truthy, or_js, length_js, has_length,
}
use tsymbiote.Js.Jsx.{
  Ui, heading, label, text, show_one, ◌<>◌, show_if, need, Texts, child, when, map_each,
}

-- x === 0
unfoldable pub is_zero : Js → Bool
is_zero (number n) = nat_eq n.digits 0
is_zero x = false

module _ (t : Texts) where
  unfoldable pub share_card : Js → Ui
  share_card s = need s (
      child t (or_js (field s "Name") (string "Unnamed Share"))
      <> when t (field s "Path") (show_one (label "Path") <> child t (field s "Path"))
      <> when t (field s "Who") (show_one (label "Run As") <> child t (field s "Who")))

  unfoldable pub shares_of : Js → Js
  shares_of d = or_js (field d "Shares") (array no_element)

  unfoldable pub shares_box : Js → Js → Ui
  unfolding share_card is_zero
  shares_box d shares =
      show_one (heading "Drive Shares")
      <> show_if (has_length shares)
          (show_one (text "(") <> child t (length_js shares) <> show_one (text ")"))
      <> when t (field d "error") (child t (field d "error"))
      <> (if is_zero (length_js shares) && not (truthy (field d "error"))
          then show_one (text "No drive shares configured on this host.")
          else map_each t shares share_card)

  unfoldable pub drive_shares_view : Js → Ui
  unfolding shares_of shares_box
  drive_shares_view d = need d (shares_box d (shares_of d))
