-- ===== src/Widgets/Rendered.antt =====
-- Rows, lists and badges render on values of their types.
use tsymbiote.Prelude.{String, ◌≡◌, Bool, true}
use tsymbiote.Js.{Js, field}
use tsymbiote.Js.Shapes.{is_plain, is_string, optional, or_null, array_of, object_fits}
use tsymbiote.Js.Jsx.{Ui, Texts, when_some}
use tsymbiote.Js.Returns.{
  Renders, Renders-some, <>-Renders, child-Renders, when-Renders, show_if-Renders,
  when_some-Renders, if-Renders, map_each-Renders,
}
use tsymbiote.Js.Declared.{plain_of_string, declared, declared_or_null}
use tsymbiote.Widgets.{status_badge, yes_no, row, field_row, list_section, tag_badges}

pub status_badge-Renders : (v : Js) (a b c d : String) → Renders (status_badge v a b c d)
unfolding status_badge
status_badge-Renders v a b c d = <>-Renders (Renders-some _) (Renders-some _)

pub yes_no-Renders : (v : Js) → Renders (yes_no v)
unfolding yes_no
yes_no-Renders v = status_badge-Renders v _ _ _ _

pub row-Renders : (l : String) {u : Ui} → Renders u → Renders (row l u)
unfolding row
row-Renders l h = <>-Renders (Renders-some _) h

module _ (t : Texts) where
  pub field_row-Renders : (l : String) (x : Js) → is_plain x ≡ true → Renders (field_row t l x)
  unfolding field_row
  field_row-Renders l x h = row-Renders l (child-Renders t x h)

  pub list_section-Renders :
      (l : String) (x : Js) → array_of is_string x ≡ true → Renders (list_section t l x)
  unfolding list_section
  list_section-Renders l x h =
      <>-Renders (Renders-some _)
        (map_each-Renders t is_string x h (λ y k. child-Renders t y (plain_of_string y k)))

  pub tag_badges-Renders : (x : Js) → array_of is_string x ≡ true → Renders (tag_badges t x)
  unfolding tag_badges
  tag_badges-Renders x h = <>-Renders (Renders-some _) (
      map_each-Renders t is_string x h
        (λ y k. <>-Renders (Renders-some _) (child-Renders t y (plain_of_string y k))))

-- {x && x.length > 0 && …} of a field of a declared type
module _ (t : Texts) (f : String → Js → Bool) (d : Js)
    (typed : optional (object_fits f) d ≡ true) where
  pub list_row-Renders :
      (k l : String)
      → f k ≡ optional (array_of is_string)
      → Renders (when_some t (field d k) (list_section t l (field d k)))
  list_row-Renders k l e =
      when_some-Renders t (field d k)
        λ p _. list_section-Renders t l (field d k) (declared f d typed k (array_of is_string) e p)

  pub nullable_list_row-Renders :
      (k l : String)
      → f k ≡ optional (or_null (array_of is_string))
      → Renders (when_some t (field d k) (list_section t l (field d k)))
  nullable_list_row-Renders k l e = when_some-Renders t (field d k) λ p _.
      list_section-Renders t l (field d k) (declared_or_null f d typed k (array_of is_string) e p)

  pub tags_row-Renders :
      (k : String)
      → f k ≡ optional (array_of is_string)
      → Renders (when_some t (field d k) (tag_badges t (field d k)))
  tags_row-Renders k e =
      when_some-Renders t (field d k)
        λ p _. tag_badges-Renders t (field d k) (declared f d typed k (array_of is_string) e p)

  pub nullable_tags_row-Renders :
      (k : String)
      → f k ≡ optional (or_null (array_of is_string))
      → Renders (when_some t (field d k) (tag_badges t (field d k)))
  nullable_tags_row-Renders k e = when_some-Renders t (field d k) λ p _.
      tag_badges-Renders t (field d k) (declared_or_null f d typed k (array_of is_string) e p)

-- The rules that render on any value
pub ruleset rendering = (
  <>-Renders, when-Renders, show_if-Renders, if-Renders, yes_no-Renders, status_badge-Renders,
  row-Renders, child-Renders, field_row-Renders, Renders-some,
)
