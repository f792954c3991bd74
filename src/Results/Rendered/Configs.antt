-- ===== src/Results/Rendered/Configs.antt =====
-- The views of the DNS, serve and app connector configurations and of the shares.
use tsymbiote.Prelude.{false≢true, String, ◌≡◌, refl, Bool, true, Bool-cases, inl, inr}
use tsymbiote.Js.{
  Js, undefined, null, bool, number, object, string, array, length_js, field, truthy,
}
use tsymbiote.Js.Shapes.{is_plain, is_string, optional, or_null, array_of, record_of, object_fits}
use tsymbiote.Js.Declared.{
  text_field, declared, declared_or_null, there, object_fits-not_nullish, plain_of_string,
  text-plain, whole-plain,
}
use tsymbiote.Js.Jsx.{Texts, badge, show_one, ◌<>◌, child}
use tsymbiote.Js.Returns.{
  Renders, Renders-some, <>-Renders, need-Renders, when_some-Renders, when_keys-Renders,
  map_each-Renders, each_entry-Renders, child-Renders,
}
use tsymbiote.Widgets.Rendered.{rendering}
use tsymbiote.Results.{pills}
use tsymbiote.Results.Rendered.Parts.{or_text-Renders, config_box-Renders}
use tsymbiote.Results.DnsConfigView.{dns_config_view}
use tsymbiote.Results.DriveSharesView.{share_card, shares_of, shares_box, drive_shares_view}
use tsymbiote.Results.AppConnView.{domain_card, counted, domains_box, app_conn_routes_view}
use tsymbiote.Results.Types.{
  route_info_field, dns_os_config_field, drive_share_field, drive_shares_field,
}

length_js-plain : (p : Js → Bool) (x : Js) → array_of p x ≡ true → is_plain (length_js x) ≡ true
unfolding length_js array_of is_plain
length_js-plain p undefined h = refl
length_js-plain p null h = refl
length_js-plain p (bool b) h = refl
length_js-plain p (number n) h = refl
length_js-plain p (string s) h = refl
length_js-plain p (array xs) h = refl
length_js-plain p (object ms) h = absurd (false≢true h)

shares_of-array :
    (t : Texts) (d : Js) (p : Js → Bool)
    → (truthy (field d "Shares") ≡ true → array_of p (field d "Shares") ≡ true)
    → array_of p (shares_of t d) ≡ true
unfolding shares_of array_of
shares_of-array t d p h = elim (Bool-cases (truthy (field d "Shares"))) [
  | inl q ↦ rw q (h q)
  | inr q ↦ rw q refl
]

module _ (t : Texts) where
  pill-Renders :
      (color : String) (v : Js) → is_string v ≡ true → Renders (show_one (badge color) <> child t v)
  pill-Renders color v h = <>-Renders (Renders-some _) (child-Renders t v (plain_of_string v h))

  module _ (f : String → Js → Bool) (d : Js) (typed : optional (object_fits f) d ≡ true) where
    pills-Renders :
        (title color k : String)
        → f k ≡ optional (array_of is_string)
        → Renders (pills t title color (field d k))
    unfolding pills
    pills-Renders title color k e = when_some-Renders t (field d k) λ p _.
        <>-Renders (Renders-some _) (
          map_each-Renders t is_string (field d k) (declared f d typed k (array_of is_string) e p)
            (pill-Renders color))

    nullable_pills-Renders :
        (title color k : String)
        → f k ≡ optional (or_null (array_of is_string))
        → Renders (pills t title color (field d k))
    unfolding pills
    nullable_pills-Renders title color k e = when_some-Renders t (field d k) λ p _.
        <>-Renders (Renders-some _) (
          map_each-Renders t is_string (field d k)
            (declared_or_null f d typed k (array_of is_string) e p) (pill-Renders color))

  -- A DNS configuration of the declared type is shown.
  pub dns_config_view-Renders :
      (d : Js)
      → object_fits dns_os_config_field d ≡ true
      → is_plain (field d "error") ≡ true
      → Renders (dns_config_view t d)
  unfolding dns_config_view dns_os_config_field
  dns_config_view-Renders d typed e =
      let fits = there (object_fits dns_os_config_field) d typed in
      search
        (
          rendering,
          need-Renders,
          object_fits-not_nullish dns_os_config_field d,
          config_box-Renders t,
          pills-Renders dns_os_config_field d,
        )
        depth 12

  share_card-Renders : (s : Js) → object_fits drive_share_field s ≡ true → Renders (share_card t s)
  unfolding share_card drive_share_field
  share_card-Renders s typed =
      let fits = there (object_fits drive_share_field) s typed in
      need-Renders s (object_fits-not_nullish drive_share_field s typed)
        (search (rendering, or_text-Renders t, text_field drive_share_field s) depth 20)

  shares_box-Renders :
      (d shares : Js)
      → array_of (object_fits drive_share_field) shares ≡ true
      → is_plain (field d "error") ≡ true
      → Renders (shares_box t d shares)
  unfolding shares_box
  shares_box-Renders d shares h e =
      let size = length_js-plain (object_fits drive_share_field) shares h in
      let cards = map_each-Renders t (object_fits drive_share_field) shares h share_card-Renders in
      search rendering depth 20

  -- Shares of the declared type are shown.
  pub drive_shares_view-Renders :
      (d : Js)
      → object_fits drive_shares_field d ≡ true
      → is_plain (field d "error") ≡ true
      → Renders (drive_shares_view t d)
  unfolding drive_shares_view drive_shares_field
  drive_shares_view-Renders d typed e =
      need-Renders d (object_fits-not_nullish drive_shares_field d typed) (
        shares_box-Renders d (shares_of t d)
          (shares_of-array t d (object_fits drive_share_field) (
            declared drive_shares_field d (there _ d typed) "Shares"
              (array_of (object_fits drive_share_field)) refl))
          e)

  domain_card-Renders :
      (domain : String) (addrs : Js)
      → array_of is_string addrs ≡ true
      → Renders (domain_card t domain addrs)
  unfolding domain_card
  domain_card-Renders domain addrs h =
      <>-Renders (child-Renders t (string domain) (text-plain domain))
        (map_each-Renders t is_string addrs h (pill-Renders "bg-green-600"))

  counted-Renders : (title : String) (x : Js) → Renders (counted t title x)
  unfolding counted
  counted-Renders title x = search (rendering, whole-plain) depth 12

  domains_box-Renders :
      (x : Js)
      → (truthy x ≡ true → record_of (array_of is_string) x ≡ true)
      → Renders (domains_box t x)
  unfolding domains_box
  domains_box-Renders x h = when_keys-Renders t x λ p.
      <>-Renders (counted-Renders "Discovered Domains" x)
        (each_entry-Renders t (array_of is_string) x (h p) domain_card-Renders)

  -- Routes of the declared type are shown.
  pub app_conn_routes_view-Renders :
      (d : Js)
      → object_fits route_info_field d ≡ true
      → is_plain (field d "error") ≡ true
      → Renders (app_conn_routes_view t d)
  unfolding app_conn_routes_view route_info_field
  app_conn_routes_view-Renders d typed e =
      let fits = there (object_fits route_info_field) d typed in
      let domains = domains_box-Renders (field d "Domains") (
        declared_or_null route_info_field d fits "Domains" (record_of (array_of is_string)) refl) in
      search
        (
          rendering,
          need-Renders,
          object_fits-not_nullish route_info_field d,
          config_box-Renders t,
          nullable_pills-Renders route_info_field d,
        )
        depth 12
