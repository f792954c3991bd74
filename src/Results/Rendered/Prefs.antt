-- ===== src/Results/Rendered/Prefs.antt =====
-- The view of the preferences.
use tsymbiote.Prelude.{String, ◌≡◌, refl, true}
use tsymbiote.Js.{Js, field}
use tsymbiote.Js.Shapes.{is_plain, optional, object_fits}
use tsymbiote.Js.Declared.{text_field, number_field, field-optional, there, object_fits-not_nullish}
use tsymbiote.Js.Jsx.{Ui, Texts}
use tsymbiote.Js.Returns.{Renders, Renders-some, <>-Renders, need-Renders}
use tsymbiote.Widgets.Rendered.{rendering, list_row-Renders, nullable_tags_row-Renders}
use tsymbiote.Results.Rendered.Parts.{error_or_else-Renders, profile-Renders}
use tsymbiote.Results.PrefsView.{table_row, first_table, second_table, preferences, prefs_view}
use tsymbiote.Results.Types.{prefs_field, persist_field}

module _ (t : Texts) (d : Js) (typed : optional (object_fits prefs_field) d ≡ true) where
  table_row-Renders : (l : String) {u : Ui} → Renders u → Renders (table_row t l u)
  unfolding table_row
  table_row-Renders l h = <>-Renders (Renders-some _) h

  first_table-Renders : Renders (first_table t d)
  unfolding first_table prefs_field
  first_table-Renders = search (rendering, table_row-Renders, text_field prefs_field d) depth 30

  second_table-Renders : is_plain (field d "OperatorUser") ≡ true → Renders (second_table t d)
  unfolding second_table prefs_field
  second_table-Renders operator =
      search (rendering, table_row-Renders, text_field prefs_field d, number_field prefs_field d)
        depth 30

  preferences-Renders : is_plain (field d "OperatorUser") ≡ true → Renders (preferences t d)
  unfolding preferences prefs_field persist_field
  preferences-Renders operator =
      let persist : optional (object_fits persist_field) (field d "Persist") ≡ true =
        field-optional prefs_field d typed "Persist" (object_fits persist_field) refl in
      search
        (
          rendering,
          first_table-Renders,
          second_table-Renders,
          text_field prefs_field d,
          text_field persist_field (field d "Persist"),
          list_row-Renders t prefs_field d,
          nullable_tags_row-Renders t prefs_field d,
          profile-Renders t persist_field (field d "Persist"),
        )
        depth 40

-- Preferences of the declared type, whose operator and error are no objects, are shown.
pub prefs_view-Renders :
    (t : Texts) (d : Js)
    → object_fits prefs_field d ≡ true
    → is_plain (field d "OperatorUser") ≡ true
    → is_plain (field d "error") ≡ true
    → Renders (prefs_view t d)
unfolding prefs_view
prefs_view-Renders t d typed operator error =
    need-Renders d (object_fits-not_nullish prefs_field d typed)
      (error_or_else-Renders t d error (preferences-Renders t d (there _ d typed) operator))
