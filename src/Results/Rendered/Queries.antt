-- ===== src/Results/Rendered/Queries.antt =====
-- The views of a DNS query and of a ping.
use tsymbiote.Prelude.{
  String, ◌≡◌, refl, true, not, ◌||◌, false≢true, List, [], ◌∷◌, arith, Bool-cases, inl, inr,
}
use tsymbiote.Js.{
  Js, undefined, null, bool, number, string, array, object, Members, lookup, field, truthy, or_js,
}
use tsymbiote.Js.Shapes.{is_plain, is_string, optional, array_of, object_fits, all_elements}
use tsymbiote.Js.Declared.{
  text_field, number_field, declared, declared_or_null, there, object_fits-not_nullish, text-plain,
  plain_of_string,
}
use tsymbiote.Js.Jsx.{Texts, when, when_some, map_each, each_entry, heading, show_one, ◌<>◌, child}
use tsymbiote.Js.Returns.{
  Renders, Renders-some, <>-Renders, need-Renders, if-Renders_when, when-Renders_if,
  when_some-Renders, map_each-Renders, each-Renders, child-Renders, if-Renders,
}
use tsymbiote.Widgets.Rendered.{rendering, nullable_list_row-Renders}
use tsymbiote.Results.DnsQueryView.{response_code, query_details, answer_box, query_dns_view}
use tsymbiote.Results.PingView.{
  ping_results, peer_entries, connection_badge, result_row, positive_row, result_rows,
  result_details, result_entry, peer_card, peer_cards, ping_view,
}
use tsymbiote.Results.Rendered.Parts.{error_or_else-Renders}
use tsymbiote.Results.PeerTypes.{dns_header_field, query_dns_field, ping_entry_field, is_ping_entry}

response_code-Renders : (x : Js) → is_string x ≡ true → Renders (response_code x)
unfolding response_code
response_code-Renders undefined h = absurd (false≢true h)
response_code-Renders null h = absurd (false≢true h)
response_code-Renders (bool b) h = absurd (false≢true h)
response_code-Renders (number n) h = absurd (false≢true h)
response_code-Renders (string s) h = <>-Renders (Renders-some _) (Renders-some _)
response_code-Renders (array xs) h = absurd (false≢true h)
response_code-Renders (object ms) h = absurd (false≢true h)

error_text :
    (r : Js)
    → optional (object_fits ping_entry_field) r ≡ true
    → is_plain (or_js (field r "error") (field r "Err")) ≡ true
unfolding ping_entry_field
error_text r typed = elim (Bool-cases (truthy (field r "error"))) [
  | inl p ↦ rw p (text_field ping_entry_field r typed "error" refl)
  | inr p ↦ rw p (text_field ping_entry_field r typed "Err" refl)
]

-- Each peer's results are entries of a ping.
abbrev pub AllResults : List (String × Js) → Type 0
AllResults [] = Unit
AllResults ((k, x) ∷ es) = (all_elements is_ping_entry (ping_results x) ≡ true) × AllResults es

module _ (t : Texts) where
  module _ (h : Js) (typed : optional (object_fits dns_header_field) h ≡ true) where
    query_details-Renders : Renders (query_details t h)
    unfolding query_details dns_header_field
    query_details-Renders = search (rendering, text_field dns_header_field h, text-plain) depth 20

    code-Renders :
        Renders (when t (field h "responseCode") (response_code (field h "responseCode")))
    unfolding dns_header_field
    code-Renders = when-Renders_if t (field h "responseCode") λ p.
        response_code-Renders (field h "responseCode")
          (declared dns_header_field h typed "responseCode" is_string refl p)

  module _ (d : Js) (typed : optional (object_fits query_dns_field) d ≡ true) where
    responses-Renders : Renders (
        when_some t
          (field d "responses")
          (show_one (heading "Responses") <> map_each t (field d "responses") (λ r. child t r)))
    unfolding query_dns_field
    responses-Renders = when_some-Renders t (field d "responses") λ p _.
        <>-Renders (Renders-some _) (
          map_each-Renders t is_string (field d "responses")
            (declared_or_null query_dns_field d typed "responses" (array_of is_string) refl p)
            (λ y k. child-Renders t y (plain_of_string y k)))

    answer_box-Renders :
        (h : Js) → optional (object_fits dns_header_field) h ≡ true → Renders (answer_box t d h)
    unfolding answer_box query_dns_field
    answer_box-Renders h fits =
        search
          (
            rendering,
            code-Renders,
            query_details-Renders,
            responses-Renders,
            nullable_list_row-Renders t query_dns_field d,
          )
          depth 12

  -- An answer whose header, responses and resolvers have the types that the view expects is shown.
  pub query_dns_view-Renders :
      (d : Js) → object_fits query_dns_field d ≡ true → Renders (query_dns_view t d)
  unfolding query_dns_view query_dns_field
  query_dns_view-Renders d typed =
      let fits = there (object_fits query_dns_field) d typed in
      let header = when-Renders_if t (field d "header") (λ p.
        answer_box-Renders d fits (field d "header") (
          there (object_fits dns_header_field) _ (
            declared_or_null query_dns_field d fits "header" (object_fits dns_header_field) refl
              p))) in
      search
        (
          rendering,
          need-Renders,
          object_fits-not_nullish query_dns_field d,
          text_field query_dns_field d,
        )
        depth 12

  result_rows-Renders :
      (r : Js) → optional (object_fits ping_entry_field) r ≡ true → Renders (result_rows t r)
  unfolding result_rows result_row positive_row ping_entry_field
  result_rows-Renders r typed =
      search (rendering, text_field ping_entry_field r, number_field ping_entry_field r) depth 30

  result_details-Renders :
      (r : Js) → optional (object_fits ping_entry_field) r ≡ true → Renders (result_details t r)
  unfolding result_details connection_badge
  result_details-Renders r typed = search (rendering, result_rows-Renders) depth 20

  result_entry-Renders : (r : Js) → is_ping_entry r ≡ true → Renders (result_entry t r)
  unfolding result_entry is_ping_entry
  result_entry-Renders r h =
      if-Renders_when (not (truthy r)) (λ _. Renders-some _)
        λ p.
          let fits = there (object_fits ping_entry_field) r (ground arith) in
          if-Renders_when (truthy (field r "error") || truthy (field r "Err"))
            (λ _. <>-Renders (Renders-some _) (child-Renders t _ (error_text r fits)))
            (λ _. result_details-Renders r fits)

  peer_card-Renders :
      (peer : String) (x : Js)
      → all_elements is_ping_entry (ping_results x) ≡ true
      → Renders (peer_card t peer x)
  unfolding peer_card connection_badge
  peer_card-Renders peer x h =
      let results = each-Renders t is_ping_entry (ping_results x) h result_entry-Renders in
      search rendering depth 12

  cards-Renders :
      (es : List (String × Js)) → AllResults es → Renders (each_entry t es (peer_card t))
  unfolding each_entry
  cards-Renders [] h = Renders-some _
  cards-Renders ((k, x) ∷ es) (h, hs) = <>-Renders (peer_card-Renders k x h) (cards-Renders es hs)

  peer_cards-Renders : (es : List (String × Js)) → AllResults es → Renders (peer_cards t es)
  unfolding peer_cards
  peer_cards-Renders es h = if-Renders _ (Renders-some _) (cards-Renders es h)

  -- A ping's results are shown, if each is falsy or of the type that the view expects.
  pub ping_view-Renders :
      (ms : Members)
      → is_plain (lookup ms "error") ≡ true
      → AllResults (peer_entries (object ms))
      → Renders (ping_view t (object ms))
  unfolding ping_view field
  ping_view-Renders ms e h =
      need-Renders (object ms) refl
        (error_or_else-Renders t (object ms) e (peer_cards-Renders (peer_entries (object ms)) h))
