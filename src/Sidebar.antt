-- ===== src/Sidebar.antt =====
-- The lists and the "Select All" buttons of web-ui/src/components/SidebarPanel.tsx, with the search
-- filters of web-ui/src/App.tsx. String.toLowerCase is an argument, lower.
use tsymbiote.Prelude.{
  ◌≡◌, refl, ◌↔◌, inl, inr, String, Bool, true, false, List, [], ◌∷◌, eq_iff, nat_eq, if◌then◌else◌,
  length, filter, Bool-cases, not, false≢true, ◌∙◌, ap, sym, eq_refl,
}
use tsymbiote.Prelude.JsSet.{has, from_list, has-from_list}
use tsymbiote.Prelude.Text.{codes, includes}
use tsymbiote.Selection.{Selection, reachable, toggle_all_targets}

-- id.toLowerCase().includes(filter.toLowerCase())
unfoldable pub matches : (String → String) → String → String → Bool
matches lower search i = includes (codes (lower i)) (codes (lower search))

-- filteredHostsForDisplay
unfoldable pub filtered_hosts_for_display : (String → String) → String → Selection → List String
unfolding matches
filtered_hosts_for_display lower search s = filter (matches lower search) s.hosts

-- filteredTargetsForDisplay
unfoldable pub filtered_targets_for_display : (String → String) → String → Selection → List String
unfolding matches
filtered_targets_for_display lower search s = filter (matches lower search) (reachable s)

-- the texts of the two buttons
unfoldable pub hosts_label : Selection → String
hosts_label s =
    if nat_eq (length s.selected_hosts) (length s.hosts) then "Deselect All" else "Select All"

unfoldable pub targets_label : Selection → String
targets_label s =
    if nat_eq (length s.selected_targets) (length (reachable s))
    then "Deselect All Peers"
    else "Select All Peers"

-- whether the button of the peers can be pressed
unfoldable pub targets_enabled : Selection → Bool
targets_enabled s = not (nat_eq (length (reachable s)) 0)

-- The set of a list is empty only if the list is.
from_list-empty : (xs : List String) → from_list xs ≡ [] → xs ≡ []
unfolding has
from_list-empty [] _ = refl
from_list-empty (x ∷ xs) e =
    absurd (false≢true (ap (λ l. has l x) (sym e) ∙ has-from_list (x ∷ xs) x ∙ rw (eq_refl x) refl))

labels-differ : ¬ (◌≡◌ {A = String} "Select All Peers" "Deselect All Peers")
labels-differ e = false≢true ((eq_iff "Select All Peers" "Deselect All Peers").1 e)

no_peers : (s : Selection) → reachable s ≡ [] → targets_enabled s ≡ false
unfolding targets_enabled
no_peers s e = rw e refl

-- Where the button of the peers can be pressed, it reads "Deselect All Peers" exactly if pressing it
-- leaves no peer selected.
pub targets_label_iff :
    (s : Selection)
    → targets_enabled s ≡ true
    → (targets_label s ≡ "Deselect All Peers") ↔ ((toggle_all_targets s).selected_targets ≡ [])
unfolding targets_label targets_enabled toggle_all_targets
targets_label_iff s some_peer =
    elim (Bool-cases (nat_eq (length s.selected_targets) (length (reachable s)))) [
      | inl e ↦ rw e (λ h. refl, λ h. refl)
      | inr e ↦ rw e (
        λ h. absurd (labels-differ h),
        λ h. absurd (false≢true (sym (no_peers s (from_list-empty (reachable s) h)) ∙ some_peer)),
      )
    ]
