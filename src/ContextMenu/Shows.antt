-- ===== src/ContextMenu/Shows.antt =====
-- When the menu of a node renders.
use tsymbiote.Prelude.{String, ◌≡◌, refl, Bool, true, false, List, [], ◌∷◌}
use tsymbiote.Prelude.JsSet.{JsSet}
use tsymbiote.Js.{Js, array, field, is_nullish, truthy, entries}
use tsymbiote.Js.Shapes.{is_plain, is_string, optional, array_of, all_elements, object_fits}
use tsymbiote.Js.Declared.{text_field, number_field, there, object_fits-not_nullish, text-plain}
use tsymbiote.Js.Jsx.{Ui, Texts}
use tsymbiote.Js.Returns.{
  Renders, <>-Renders, need-Renders, if-Renders, when_keys-Renders, when_some-Renders,
}
use tsymbiote.Widgets.Rendered.{
  rendering, list_row-Renders, nullable_list_row-Renders, tags_row-Renders, list_section-Renders,
}
use tsymbiote.Results.PeerTypes.{peer_node_field}
use tsymbiote.ContextMenu.{
  key_strings, section, when_row, when_list, time_row, status_content, identity_content,
  network_content, exit_node_content, tags_content, traffic_content, timestamps_content,
  additional_content, exit_node_section, traffic_section, tags_section, node_sections,
  node_context_menu,
}

key_strings-array : (es : List (String × Js)) → array_of is_string (array (key_strings es)) ≡ true
unfolding array_of all_elements
key_strings-array [] = refl
key_strings-array ((k, v) ∷ es) = key_strings-array es

section-Renders :
    (c : JsSet) (title key : String) {u : Ui} → Renders u → Renders (section c title key u)
unfolding section
section-Renders c title key h = search rendering

module _ (t : Texts) (n : Js) (typed : optional (object_fits peer_node_field) n ≡ true) where
  status_content-Renders : Renders (status_content t n)
  unfolding status_content
  status_content-Renders = search rendering depth 12

  identity_content-Renders : Renders (identity_content t n)
  unfolding identity_content when_row peer_node_field
  identity_content-Renders =
      search (rendering, text_field peer_node_field n, number_field peer_node_field n) depth 20

  network_content-Renders : Renders (network_content t n)
  unfolding network_content when_row when_list peer_node_field
  network_content-Renders =
      search
        (
          rendering,
          text_field peer_node_field n,
          list_row-Renders t peer_node_field n,
          nullable_list_row-Renders t peer_node_field n,
        )
        depth 20

  exit_node_content-Renders : Renders (exit_node_content t n)
  unfolding exit_node_content
  exit_node_content-Renders = search rendering depth 12

  tags_content-Renders : Renders (tags_content t n)
  unfolding tags_content when_list peer_node_field
  tags_content-Renders =
      search (rendering, list_row-Renders t peer_node_field n, tags_row-Renders t peer_node_field n)

  traffic_content-Renders : Renders (traffic_content t n)
  unfolding traffic_content
  traffic_content-Renders = search (rendering, text-plain)

  timestamps_content-Renders : Renders (timestamps_content t n)
  unfolding timestamps_content time_row
  timestamps_content-Renders = search (rendering, text-plain) depth 20

  additional_content-Renders :
      (truthy (field n "Capabilities") ≡ true → array_of is_string (field n "Capabilities") ≡ true)
      → Renders (additional_content t n)
  unfolding additional_content when_row when_list peer_node_field
  additional_content-Renders h =
      let capabilities =
        when_some-Renders t (field n "Capabilities")
          (λ p _. list_section-Renders t "Capabilities" (field n "Capabilities") (h p)) in
      let cap_map = when_keys-Renders t (field n "CapMap") (λ _.
        list_section-Renders t "Capability Map" _
          (key_strings-array (entries (field n "CapMap")))) in
      search
        (
          rendering,
          text_field peer_node_field n,
          number_field peer_node_field n,
          list_row-Renders t peer_node_field n,
        )
        depth 20

  module _ (c : JsSet) where
    exit_node_section-Renders : Renders (exit_node_section t c n)
    unfolding exit_node_section
    exit_node_section-Renders = search (rendering, section-Renders, exit_node_content-Renders)

    traffic_section-Renders : Renders (traffic_section t c n)
    unfolding traffic_section
    traffic_section-Renders = search (rendering, section-Renders, traffic_content-Renders)

    tags_section-Renders : Renders (tags_section t c n)
    unfolding tags_section
    tags_section-Renders =
        let tags = section-Renders c "Tags & Routes" "tags" tags_content-Renders in
        if-Renders _ tags (when_some-Renders t (field n "PrimaryRoutes") (λ _ _. tags))

    node_sections-Renders :
        (truthy (field n "Capabilities") ≡ true
          → array_of is_string (field n "Capabilities") ≡ true)
        → Renders (node_sections t c n)
    unfolding node_sections
    node_sections-Renders h =
        let additional = additional_content-Renders h in
        search
          (
            <>-Renders, section-Renders, status_content-Renders, identity_content-Renders,
            network_content-Renders, exit_node_section-Renders, tags_section-Renders,
            traffic_section-Renders, timestamps_content-Renders,
          )
          depth 20

-- The menu of a node of the declared type, whose capabilities, if it has any, are a list of texts,
-- is shown, whichever sections are collapsed.
pub node_context_menu-Renders :
    (t : Texts) (is_host : Bool) (collapsed : JsSet) (d : Js)
    → is_nullish d ≡ false
    → is_plain (field d "label") ≡ true
    → object_fits peer_node_field (field d "data") ≡ true
    → (truthy (field (field d "data") "Capabilities") ≡ true
        → array_of is_string (field (field d "data") "Capabilities") ≡ true)
    → Renders (node_context_menu t is_host collapsed d)
unfolding node_context_menu
node_context_menu-Renders t is_host collapsed d object label typed capabilities =
    let sections =
      node_sections-Renders t (field d "data")
        (there (object_fits peer_node_field) (field d "data") typed) collapsed capabilities in
    search (rendering, need-Renders, object_fits-not_nullish peer_node_field (field d "data")) depth
      12
