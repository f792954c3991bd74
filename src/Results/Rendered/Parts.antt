-- ===== src/Results/Rendered/Parts.antt =====
-- What several views share renders on values of its types.
use tsymbiote.Prelude.{String, Bool, ◌≡◌, true}
use tsymbiote.Js.{Js, string, field, or_js}
use tsymbiote.Js.Shapes.{is_plain, optional, object_fits}
use tsymbiote.Js.Declared.{text_field, there, declared, or_text-plain}
use tsymbiote.Js.Jsx.{Ui, Texts, child, heading, show_one, ◌<>◌, when}
use tsymbiote.Js.Returns.{child-Renders, Renders, Renders-some, <>-Renders, when-Renders_if}
use tsymbiote.Widgets.Rendered.{field_row-Renders, rendering}
use tsymbiote.Widgets.{field_row}
use tsymbiote.Results.{error_or_else, user_card, config_body, config_box}
use tsymbiote.Results.Types.{user_profile_field}

module _ (t : Texts) where
  pub error_or_else-Renders :
      (d : Js) {u : Ui}
      → is_plain (field d "error") ≡ true
      → Renders u
      → Renders (error_or_else t d u)
  unfolding error_or_else
  error_or_else-Renders d e h = search rendering

  pub user_card-Renders :
      (u : Js) → object_fits user_profile_field u ≡ true → Renders (user_card t u)
  unfolding user_card user_profile_field
  user_card-Renders u h =
      let typed = there (object_fits user_profile_field) u h in
      search (rendering, text_field user_profile_field u) depth 20

  pub profile-Renders :
      (f : String → Js → Bool) (d : Js)
      → optional (object_fits f) d ≡ true
      → (k l : String) → f k ≡ optional (object_fits user_profile_field)
      → Renders (when t (field d k) (show_one (heading l) <> user_card t (field d k)))
  profile-Renders f d typed k l e = when-Renders_if t (field d k) λ p.
      <>-Renders (Renders-some _)
        (user_card-Renders (field d k) (declared f d typed k (object_fits user_profile_field) e p))

  pub or_text-Renders :
      (x : Js) (s : String) → is_plain x ≡ true → Renders (child t (or_js x (string s)))
  or_text-Renders x s h = child-Renders t _ (or_text-plain x s h)

  pub config_body-Renders :
      (none_text : String) (any : Bool) (d : Js) {u : Ui}
      → is_plain (field d "error") ≡ true
      → Renders u
      → Renders (config_body t none_text any d u)
  unfolding config_body
  config_body-Renders none_text any d e h = search rendering depth 12

  pub config_box-Renders :
      (title none_text : String) (any : Bool) (d : Js) {u : Ui}
      → is_plain (field d "error") ≡ true
      → Renders u
      → Renders (config_box t title none_text any d u)
  unfolding config_box
  config_box-Renders title none_text any d e h = search (rendering, config_body-Renders) depth 12

  pub or_text_row-Renders :
      (l : String) (x : Js) (s : String)
      → is_plain x ≡ true
      → Renders (field_row t l (or_js x (string s)))
  or_text_row-Renders l x s h = field_row-Renders t l _ (or_text-plain x s h)
