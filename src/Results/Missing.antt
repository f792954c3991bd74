-- ===== src/Results/Missing.antt =====
-- What the views of app connector routes and of a ping fail to show.
use tsymbiote.Prelude.{
  ℕ, zero, suc, String, ◌≡◌, refl, ◌∙◌, ap, Bool, true, false, not, ◌||◌, none, some, List, [], ◌∷◌,
  get_elem?, nat_eq, length, arith, Bool-cases, inl, inr,
}
use tsymbiote.Js.{
  Js, undefined, null, bool, number, string, array, object, Members, member, field, truthy, entries,
  has_keys, has_some, is_nullish,
}
use tsymbiote.Js.Jsx.{Ui, ◌<>◌, need, Texts, when, when_keys, show_if, map_each, each_entry, child}
use tsymbiote.Results.{config_box, config_body, pills, error_or_else}
use tsymbiote.Results.AppConnView.{domain_card, counted, domains_box, app_conn_routes_view}
use tsymbiote.Results.PingView.{ping_view}

<>-none : (u : Ui) → (u <> none) ≡ none
unfolding ◌<>◌
<>-none none = refl
<>-none (some xs) = refl

none-<> : (v : Ui) → (none <> v) ≡ none
unfolding ◌<>◌
none-<> v = refl

abbrev is_array : Js → Bool
is_array (array xs) = true
is_array x = false

need-none : (x : Js) → need x none ≡ none
unfolding need
need-none x = elim (Bool-cases (is_nullish x)) [ inl e ↦ rw e refl | inr e ↦ rw e refl ]

some_entry :
    {A : Type 0} {a : A} (es : List A) (i : ℕ)
    → get_elem? es i ≡ some a
    → not (nat_eq (length es) 0) ≡ true
some_entry [] i h = absurd (ground (arith, h))
some_entry (e ∷ es) i h = ground arith

any_route :
    (control domains wildcards : Js) (i : ℕ) {domain : String} {addrs : Js}
    → truthy domains ≡ true
    → get_elem? (entries domains) i ≡ some (domain, addrs)
    → (has_some control || has_keys domains || has_some wildcards) ≡ true
unfolding has_keys
any_route control domains wildcards i there found =
    let e = some_entry (entries domains) i found in ground arith

module _ (t : Texts) where
  map_each-none : (x : Js) (f : Js → Ui) → is_array x ≡ false → map_each t x f ≡ none
  unfolding map_each
  map_each-none undefined f h = refl
  map_each-none null f h = refl
  map_each-none (bool b) f h = refl
  map_each-none (number n) f h = refl
  map_each-none (string s) f h = refl
  map_each-none (array xs) f h = cc
  map_each-none (object ms) f h = refl

  each_entry-none :
      (es : List (String × Js)) (f : String → Js → Ui) (i : ℕ) (k : String) (v : Js)
      → get_elem? es i ≡ some (k, v)
      → f k v ≡ none
      → each_entry t es f ≡ none
  unfolding each_entry
  each_entry-none [] f i k v h n = absurd (ground arith)
  each_entry-none ((j, w) ∷ es) f zero k v h n =
      let e : f j w ≡ none = cc in rw e (none-<> (each_entry t es f))
  each_entry-none ((j, w) ∷ es) f (suc i) k v h n =
      rw (each_entry-none es f i k v h n) (<>-none (f j w))

  domain_card-none :
      (domain : String) (addrs : Js) → is_array addrs ≡ false → domain_card t domain addrs ≡ none
  unfolding domain_card
  domain_card-none domain addrs bad = rw (map_each-none addrs _ bad) (<>-none _)

  domains_box-none :
      (x : Js) (i : ℕ) (domain : String) (addrs : Js)
      → truthy x ≡ true
      → get_elem? (entries x) i ≡ some (domain, addrs)
      → is_array addrs ≡ false
      → domains_box t x ≡ none
  unfolding domains_box when_keys when show_if
  domains_box-none x i domain addrs there found bad =
      rw
        (
          there,
          some_entry (entries x) i found,
          each_entry-none (entries x) (domain_card t) i domain addrs found
              (domain_card-none domain addrs bad),
        )
        (<>-none (counted t "Discovered Domains" x))

  config_box-none :
      (title none_text : String) (d : Js) → config_box t title none_text true d none ≡ none
  unfolding config_box config_body
  config_box-none title none_text d =
      rw (<>-none (when t (field d "error") (child t (field d "error")))) (<>-none _)

  -- Routes that list a domain whose addresses are not an array, such as null, are not shown: the view
  -- throws, whatever else they have.
  pub app_conn_routes_view_throws :
      (d : Js) (i : ℕ) (domain : String) (addrs : Js)
      → truthy (field d "Domains") ≡ true
      → get_elem? (entries (field d "Domains")) i ≡ some (domain, addrs)
      → is_array addrs ≡ false
      → app_conn_routes_view t d ≡ none
  unfolding app_conn_routes_view
  app_conn_routes_view_throws d i domain addrs there found bad =
      let title : String = "App Connector Routes" in
      let none_text : String = "No app connector routes configured on this host." in
      let control = pills t "Control Routes (ACL)" "bg-blue-600" (field d "Control") in
      let wildcards = pills t "Wildcard Domains" "bg-purple-600" (field d "Wildcards") in
      let x = field d "Domains" in
      ap (λ b. need d (config_box t title none_text b d (control <> wildcards <> domains_box t x)))
        (any_route (field d "Control") x (field d "Wildcards") i there found)
      ∙ ap (λ u. need d (config_box t title none_text true d (control <> wildcards <> u)))
          (domains_box-none x i domain addrs there found bad)
      ∙ ap (λ u. need d (config_box t title none_text true d (control <> u))) (<>-none wildcards)
      ∙ ap (λ u. need d (config_box t title none_text true d u)) (<>-none control)
      ∙ ap (need d) (config_box-none title none_text d)
      ∙ need-none d

  -- The results of a ping to a peer that is called "host" are left out.
  pub ping_view-host :
      (x : Js) (ms : Members) → ping_view t (object (member "host" x ms)) ≡ ping_view t (object ms)
  unfolding ping_view need error_or_else field entries
  ping_view-host x ms = refl
