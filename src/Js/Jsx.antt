-- ===== src/Js/Jsx.antt =====
-- What a React component shows: the content in document order, or `none` where rendering throws,
-- which takes down the whole page, since no component catches it. Layout is left out.
use tsymbiote.Prelude.{
  String, Bool, Option, none, some, List, [], ◌∷◌, ◌++◌, ◌==◌, if◌then◌else◌, nat_eq, length, not,
}
use tsymbiote.Js.{
  Js, undefined, null, bool, number, string, array, object, Elements, no_element, element, truthy,
  is_nullish, has_length, entries,
}

-- `badge` begins a text on a coloured ground.
pub data Shown : Type 0 where
  heading label text badge : String → Shown
  image : (src : Js) → (alt : Js) → Shown

abbrev pub Ui : Type 0
Ui = Option (List Shown)

abbrev pub nothing : Ui
nothing = some []

abbrev pub show_one : Shown → Ui
show_one x = some (x ∷ [])

infixr 20 ◌<>◌
unfoldable pub ◌<>◌ : Ui → Ui → Ui
none <> v = none
some xs <> none = none
some xs <> some ys = some (xs ++ ys)

-- A test, then content: `{b && …}`
unfoldable pub show_if : Bool → Ui → Ui
show_if b u = if b then u else nothing

-- Reading a property of x throws where x is null or undefined.
unfoldable pub need : Js → Ui → Ui
need x u = if is_nullish x then none else u

-- The texts of values: String(x), and what the functions of UIComponents.tsx make of any value,
-- which Formats has for the numbers and texts that they are meant for.
pub record Texts : Type 0 where
  pub string_text : Js → String
  pub bytes_text : Js → String
  pub latency_text : Js → String
  pub timestamp_text : Js → String
  pub local_text : Js → String

module _ (t : Texts) where
  -- {x}
  unfoldable mutual
    pub child : Js → Ui
    child undefined = nothing
    child null = nothing
    child (bool b) = nothing
    child (number n) = show_one (text (t.string_text (number n)))
    child (string s) = if s == "" then nothing else show_one (text s)
    child (array xs) = children xs
    child (object ms) = none

    pub children : Elements → Ui
    children no_element = nothing
    children (element x xs) = child x <> children xs

  -- {x && …}
  unfoldable pub when : Js → Ui → Ui
  when x u = if truthy x then u else child x

  -- {x && x.length > 0 && …}
  unfoldable pub when_some : Js → Ui → Ui
  unfolding when
  when_some x u = when x (show_if (has_length x) u)

  -- {x && Object.keys(x).length > 0 && …}
  unfoldable pub when_keys : Js → Ui → Ui
  unfolding when
  when_keys x u = when x (show_if (not (nat_eq (length (entries x)) 0)) u)

  -- x.map(item => …); only a list has `map`
  unfoldable pub each : Elements → (Js → Ui) → Ui
  each no_element f = nothing
  each (element x xs) f = f x <> each xs f

  unfoldable pub map_each : Js → (Js → Ui) → Ui
  unfolding each
  map_each (array xs) f = each xs f
  map_each x f = none

  unfoldable pub each_entry : List (String × Js) → (String → Js → Ui) → Ui
  each_entry [] f = nothing
  each_entry ((k, v) ∷ ms) f = f k v <> each_entry ms f
