-- ===== src/Results/Rendered/Status.antt =====
-- The view of a node's status.
use tsymbiote.Prelude.{String, ◌≡◌, refl, true}
use tsymbiote.Js.{Js, field}
use tsymbiote.Js.Shapes.{is_plain, is_string, optional, array_of, record_of, object_fits}
use tsymbiote.Js.Declared.{
  text_field, field-optional, declared, there, object_fits-not_nullish, text-plain, whole-plain,
  plain_of_string,
}
use tsymbiote.Js.Jsx.{Texts, need}
use tsymbiote.Js.Returns.{
  Renders, Renders-some, <>-Renders, need-Renders, when_some-Renders, when_keys-Renders,
  map_each-Renders, each_entry-Renders, child-Renders,
}
use tsymbiote.Widgets.Rendered.{rendering, list_row-Renders, tags_row-Renders}
use tsymbiote.Results.{user_card}
use tsymbiote.Results.Rendered.Parts.{
  error_or_else-Renders, user_card-Renders, or_text-Renders, or_text_row-Renders,
}
use tsymbiote.Results.StatusView.{
  when_row, counted_title, overview, health_warnings, self_rows, self_traffic, users_box, peer_rows,
  peer_box, peers_box, status_sections, status_view,
}
use tsymbiote.Results.Types.{user_profile_field}
use tsymbiote.Results.PeerTypes.{tailnet_field, peer_node_field, status_field}

module _ (t : Texts) where
  counted_title-Renders : (title : String) (x : Js) → Renders (counted_title t title x)
  unfolding counted_title
  counted_title-Renders title x = search (rendering, whole-plain) depth 12

  module _ (s : Js) (typed : optional (object_fits peer_node_field) s ≡ true) where
    self_rows-Renders : Renders (self_rows t s)
    unfolding self_rows when_row peer_node_field
    self_rows-Renders =
        search
          (
            rendering,
            text_field peer_node_field s,
            list_row-Renders t peer_node_field s,
            tags_row-Renders t peer_node_field s,
          )
          depth 30

    peer_rows-Renders : Renders (peer_rows t s)
    unfolding peer_rows when_row peer_node_field
    peer_rows-Renders = search (rendering, text_field peer_node_field s, text-plain) depth 30

  self_traffic-Renders : (s : Js) → Renders (self_traffic t s)
  unfolding self_traffic
  self_traffic-Renders s = search (rendering, text-plain) depth 30

  user-Renders :
      (k : String) (u : Js)
      → object_fits user_profile_field u ≡ true
      → Renders (need u (user_card t u))
  user-Renders k u h =
      need-Renders u (object_fits-not_nullish user_profile_field u h) (user_card-Renders t u h)

  peer_box-Renders :
      (k : String) (p : Js) → object_fits peer_node_field p ≡ true → Renders (peer_box t p)
  unfolding peer_box peer_node_field
  peer_box-Renders k p h =
      let fits = there (object_fits peer_node_field) p h in
      search
        (
          rendering,
          need-Renders,
          object_fits-not_nullish peer_node_field p,
          peer_rows-Renders,
          text_field peer_node_field p,
          list_row-Renders t peer_node_field p,
          tags_row-Renders t peer_node_field p,
        )
        depth 30

  module _ (d : Js) (typed : optional (object_fits status_field) d ≡ true) where
    overview-Renders : Renders (overview t d)
    unfolding overview status_field tailnet_field
    overview-Renders =
        let tailnet =
          field-optional status_field d typed "CurrentTailnet" (object_fits tailnet_field) refl in
        search
          (
            rendering,
            or_text-Renders t,
            or_text_row-Renders t,
            text_field status_field d,
            text_field tailnet_field (field d "CurrentTailnet"),
            list_row-Renders t status_field d,
          )
          depth 30

    health_warnings-Renders : Renders (health_warnings t d)
    unfolding health_warnings status_field
    health_warnings-Renders = when_some-Renders t (field d "Health") λ p _.
        <>-Renders (Renders-some _) (
          map_each-Renders t is_string (field d "Health")
            (declared status_field d typed "Health" (array_of is_string) refl p)
            (λ y k. <>-Renders (Renders-some _) (child-Renders t y (plain_of_string y k))))

    users_box-Renders : Renders (users_box t (field d "User"))
    unfolding users_box status_field
    users_box-Renders = when_keys-Renders t (field d "User") λ p.
        <>-Renders (counted_title-Renders "Users" (field d "User")) (
          each_entry-Renders t (object_fits user_profile_field) (field d "User")
            (declared status_field d typed "User" (record_of (object_fits user_profile_field)) refl
              p)
            user-Renders)

    peers_box-Renders : Renders (peers_box t (field d "Peer"))
    unfolding peers_box status_field
    peers_box-Renders = when_keys-Renders t (field d "Peer") λ p.
        <>-Renders (counted_title-Renders "Peers" (field d "Peer")) (
          each_entry-Renders t (object_fits peer_node_field) (field d "Peer")
            (declared status_field d typed "Peer" (record_of (object_fits peer_node_field)) refl p)
            peer_box-Renders)

    status_sections-Renders : Renders (status_sections t d)
    unfolding status_sections status_field
    status_sections-Renders =
        let self =
          self_rows-Renders (field d "Self")
            (field-optional status_field d typed "Self" (object_fits peer_node_field) refl) in
        search
          (
            rendering, overview-Renders, health_warnings-Renders, users_box-Renders,
            peers_box-Renders, self_traffic-Renders,
          )
          depth 20

  -- A status whose peers, users and node have the types that the view expects is shown.
  pub status_view-Renders :
      (d : Js)
      → object_fits status_field d ≡ true
      → is_plain (field d "error") ≡ true
      → Renders (status_view t d)
  unfolding status_view
  status_view-Renders d typed e = need-Renders d (object_fits-not_nullish status_field d typed) (
      error_or_else-Renders t d e
        (status_sections-Renders d (there (object_fits status_field) d typed)))
