-- ===== src/Results/Exact.antt =====
-- What the view of a DNS configuration shows, as a list.
use tsymbiote.Prelude.{
  String, ◌≡◌, refl, ◌∙◌, ap, Bool, true, false, not, ◌&&◌, ◌||◌, ◌==◌, some, List, [], ◌∷◌, ◌++◌,
  arith, if◌then◌else◌, Bool-cases, inl, inr,
}
use tsymbiote.Js.{
  Js, string, array, Elements, no_element, element, field, undefined, truthy, has_length, has_some,
  is_nullish,
}
use tsymbiote.Js.Jsx.{
  Shown, heading, text, badge, Ui, ◌<>◌, show_one, need, Texts, child, when, when_some, show_if,
  map_each, each,
}
use tsymbiote.Results.{pills, config_box, config_body}
use tsymbiote.Results.DnsConfigView.{dns_config_view}

-- The list as a value
unfoldable pub string_elements : List String → Elements
string_elements [] = no_element
string_elements (s ∷ ss) = element (string s) (string_elements ss)

-- The items of a list, each on its colour; an empty text leaves only the colour.
unfoldable pub item_list : String → List String → List Shown
item_list color [] = []
item_list color (s ∷ ss) =
    badge color ∷ ((if s == "" then [] else text s ∷ []) ++ item_list color ss)

-- A title and its items, or nothing where there are no items
unfoldable pub titled_list : (title color : String) → List String → List Shown
unfolding item_list
titled_list title color [] = []
titled_list title color (s ∷ ss) = heading title ∷ item_list color (s ∷ ss)

abbrev is_nil : List String → Bool
is_nil [] = true
is_nil (s ∷ ss) = false

abbrev none_shown : List Shown
none_shown = text "No DNS configuration available for this host." ∷ []

none_some :
    (a b c : Bool) (xs ys zs : List String)
    → a ≡ not (is_nil xs)
    → b ≡ not (is_nil ys)
    → c ≡ not (is_nil zs)
    → not (a || b || c) ≡ (is_nil xs && is_nil ys && is_nil zs)
none_some a b c xs ys zs p q r = ground arith

module _ (t : Texts) where
  each-string_elements :
      (color : String) (ss : List String)
      → each t (string_elements ss) (λ v. show_one (badge color) <> child t v)
        ≡ some (item_list color ss)
  unfolding each string_elements item_list child ◌<>◌
  each-string_elements color [] = refl
  each-string_elements color (s ∷ ss) =
      rw (each-string_elements color ss)
        (elim (Bool-cases (s == "")) [ inl e ↦ rw e refl | inr e ↦ rw e refl ])

  pills-string_elements :
      (title color : String) (ss : List String)
      → pills t title color (array (string_elements ss)) ≡ some (titled_list title color ss)
  unfolding pills when_some when show_if map_each truthy has_length titled_list string_elements
  pills-string_elements title color [] = refl
  pills-string_elements title color (s ∷ ss) =
      rw (each-string_elements color (s ∷ ss)) (unfold ◌<>◌ in ground arith)

  has_some-string_elements :
      (ss : List String) → has_some (array (string_elements ss)) ≡ not (is_nil ss)
  unfolding has_some string_elements
  has_some-string_elements [] = refl
  has_some-string_elements (s ∷ ss) = ground arith

  config_box_lem :
      (title none_text : String) (any : Bool) (d : Js) (xs : List Shown)
      → field d "error" ≡ undefined
      → config_box t title none_text any d (some xs)
        ≡ some (heading title ∷ (if not any then text none_text ∷ [] else xs))
  unfolding config_box config_body ◌<>◌ when truthy child
  config_box_lem title none_text true d xs ok = rw ok refl
  config_box_lem title none_text false d xs ok = rw ok refl

  three_lists :
      {u v w : Ui} (xs ys zs : List Shown)
      → u ≡ some xs
      → v ≡ some ys
      → w ≡ some zs
      → (u <> v <> w) ≡ some (xs ++ (ys ++ zs))
  unfolding ◌<>◌
  three_lists xs ys zs p q r = rw (p, q, r) refl

  need_lem : (d : Js) (u : Ui) → is_nullish d ≡ false → need d u ≡ u
  unfolding need
  need_lem d u e = rw e refl

  -- A DNS configuration without an error is shown as its three lists, each under its title and in its
  -- colour, and those that are empty left out; if all are, as the text that there is none.
  pub dns_config_view_lem :
      (d : Js) (nameservers search_domains match_domains : List String)
      → is_nullish d ≡ false
      → field d "error" ≡ undefined
      → field d "Nameservers" ≡ array (string_elements nameservers)
      → field d "SearchDomains" ≡ array (string_elements search_domains)
      → field d "MatchDomains" ≡ array (string_elements match_domains)
      → dns_config_view t d
        ≡ some (
            heading "DNS Configuration"
            ∷ (if is_nil nameservers && is_nil search_domains && is_nil match_domains
                then text "No DNS configuration available for this host." ∷ []
                else titled_list "Nameservers" "bg-blue-600" nameservers
                  ++ (titled_list "Search Domains" "bg-green-600" search_domains
                      ++ titled_list "Match Domains" "bg-purple-600" match_domains)))
  unfolding dns_config_view
  dns_config_view_lem d ns ss ms there ok en es em =
      let shown : List Shown =
        titled_list "Nameservers" "bg-blue-600" ns
        ++ (titled_list "Search Domains" "bg-green-600" ss
            ++ titled_list "Match Domains" "bg-purple-600" ms) in
      need_lem d _ there
      ∙ ap
          (λ u.
            config_box t "DNS Configuration" "No DNS configuration available for this host."
              (has_some (field d "Nameservers")
                || has_some (field d "SearchDomains")
                || has_some (field d "MatchDomains"))
              d u)
          (three_lists _ _ _
            (ap (pills t "Nameservers" "bg-blue-600") en ∙ pills-string_elements _ _ ns)
            (ap (pills t "Search Domains" "bg-green-600") es ∙ pills-string_elements _ _ ss)
            (ap (pills t "Match Domains" "bg-purple-600") em ∙ pills-string_elements _ _ ms))
      ∙ config_box_lem _ _ _ d _ ok
      ∙ ap (λ any. some (heading "DNS Configuration" ∷ (if any then none_shown else shown)))
          (none_some _ _ _ ns ss ms (ap has_some en ∙ has_some-string_elements ns)
            (ap has_some es ∙ has_some-string_elements ss)
            (ap has_some em ∙ has_some-string_elements ms))
