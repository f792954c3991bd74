-- ===== src/Js/Returns.antt =====
-- When rendering does not throw: one rule for each way of composing content.
use tsymbiote.Prelude.{
  sym, String, ◌≡◌, refl, Bool, true, false, not, none, some, List, [], ◌∷◌, ◌++◌, if◌then◌else◌,
  false≢true, ◌==◌, and-true, nat_eq, length,
}
use tsymbiote.Js.{
  Js, undefined, null, bool, number, string, array, object, Elements, no_element, element, Members,
  no_member, member, truthy, is_nullish, has_length, entries, members,
}
use tsymbiote.Js.Shapes.{is_plain, all_elements, array_of, all_members, record_of, object_fits}
use tsymbiote.Js.Jsx.{
  Shown, Ui, ◌<>◌, show_if, need, Texts, child, when, when_some, when_keys, each, map_each,
  each_entry,
}

-- The content is shown, and nothing throws.
pub record Renders (u : Ui) : Type 0 where
  pub content : List Shown
  pub shows : u ≡ some content

pub Renders-some : (xs : List Shown) → Renders (some xs)
Renders-some xs = record { content = xs; shows = refl }

pub none-Renders : ¬ Renders none
none-Renders h = cc (h.shows)

pub <>-Renders : {u v : Ui} → Renders u → Renders v → Renders (u <> v)
unfolding ◌<>◌
<>-Renders h k = record { content = h.content ++ k.content; shows = rw (h.shows, k.shows) refl }

pub Renders-left : (u v : Ui) → Renders (u <> v) → Renders u
unfolding ◌<>◌
Renders-left none v h = h
Renders-left (some xs) v h = Renders-some xs

pub Renders-right : (u v : Ui) → Renders (u <> v) → Renders v
unfolding ◌<>◌
Renders-right none v h = absurd (none-Renders h)
Renders-right (some xs) none h = h
Renders-right (some xs) (some ys) h = Renders-some ys

pub if-Renders_when :
    (b : Bool) {u v : Ui}
    → (b ≡ true → Renders u)
    → (b ≡ false → Renders v)
    → Renders (if b then u else v)
if-Renders_when true h k = h refl
if-Renders_when false h k = k refl

pub if-Renders : (b : Bool) {u v : Ui} → Renders u → Renders v → Renders (if b then u else v)
if-Renders b h k = if-Renders_when b (λ _. h) (λ _. k)

pub show_if-Renders_when : (b : Bool) {u : Ui} → (b ≡ true → Renders u) → Renders (show_if b u)
unfolding show_if
show_if-Renders_when true h = h refl
show_if-Renders_when false h = Renders-some _

pub show_if-Renders : (b : Bool) {u : Ui} → Renders u → Renders (show_if b u)
show_if-Renders b h = show_if-Renders_when b (λ _. h)

pub need-Renders : (x : Js) {u : Ui} → is_nullish x ≡ false → Renders u → Renders (need x u)
unfolding need
need-Renders x h k = rw h k

module _ (t : Texts) where
  pub falsy-Renders : (x : Js) → truthy x ≡ false → Renders (child t x)
  unfolding truthy child
  falsy-Renders undefined h = Renders-some _
  falsy-Renders null h = Renders-some _
  falsy-Renders (bool b) h = Renders-some _
  falsy-Renders (number n) h = Renders-some _
  falsy-Renders (string s) h = if-Renders (s == "") (Renders-some _) (Renders-some _)
  falsy-Renders (array xs) h = absurd (false≢true (sym h))
  falsy-Renders (object ms) h = absurd (false≢true (sym h))

  pub when-Renders_if : (x : Js) {u : Ui} → (truthy x ≡ true → Renders u) → Renders (when t x u)
  unfolding when
  when-Renders_if x h = if-Renders_when (truthy x) h (falsy-Renders x)

  pub when-Renders : (x : Js) {u : Ui} → Renders u → Renders (when t x u)
  when-Renders x h = when-Renders_if x (λ _. h)

  pub when_some-Renders :
      (x : Js) {u : Ui}
      → (truthy x ≡ true → has_length x ≡ true → Renders u)
      → Renders (when_some t x u)
  unfolding when_some
  when_some-Renders x h = when-Renders_if x (λ p. show_if-Renders_when (has_length x) (h p))

  pub when_keys-Renders :
      (x : Js) {u : Ui} → (truthy x ≡ true → Renders u) → Renders (when_keys t x u)
  unfolding when_keys
  when_keys-Renders x h =
      when-Renders_if x (λ p. show_if-Renders (not (nat_eq (length (entries x)) 0)) (h p))

  -- What `{x}` can show without an array.
  pub child-Renders : (x : Js) → is_plain x ≡ true → Renders (child t x)
  unfolding child is_plain
  child-Renders undefined h = Renders-some _
  child-Renders null h = Renders-some _
  child-Renders (bool b) h = Renders-some _
  child-Renders (number n) h = Renders-some _
  child-Renders (string s) h = if-Renders (s == "") (Renders-some _) (Renders-some _)
  child-Renders (array xs) h = absurd (false≢true h)
  child-Renders (object ms) h = absurd (false≢true h)

  pub each-Renders :
      (p : Js → Bool) (xs : Elements) {f : Js → Ui}
      → all_elements p xs ≡ true
      → ((x : Js) → p x ≡ true → Renders (f x))
      → Renders (each t xs f)
  unfolding each all_elements
  each-Renders p no_element h k = Renders-some _
  each-Renders p (element x xs) h k =
      let (a, b) = and-true (p x) (all_elements p xs) h in
      <>-Renders (k x a) (each-Renders p xs b k)

  pub map_each-Renders :
      (p : Js → Bool) (x : Js) {f : Js → Ui}
      → array_of p x ≡ true
      → ((y : Js) → p y ≡ true → Renders (f y))
      → Renders (map_each t x f)
  unfolding map_each array_of
  map_each-Renders p undefined h k = absurd (false≢true h)
  map_each-Renders p null h k = absurd (false≢true h)
  map_each-Renders p (bool b) h k = absurd (false≢true h)
  map_each-Renders p (number n) h k = absurd (false≢true h)
  map_each-Renders p (string s) h k = absurd (false≢true h)
  map_each-Renders p (array xs) h k = each-Renders p xs h k
  map_each-Renders p (object ms) h k = absurd (false≢true h)

  members-Renders :
      (p : Js → Bool) (ms : Members) {f : String → Js → Ui}
      → all_members (λ _. p) ms ≡ true
      → ((k : String) (x : Js) → p x ≡ true → Renders (f k x))
      → Renders (each_entry t (members ms) f)
  unfolding each_entry members all_members
  members-Renders p no_member h g = Renders-some _
  members-Renders p (member k x ms) h g =
      let (a, b) = and-true (p x) (all_members (λ _. p) ms) h in
      <>-Renders (g k x a) (members-Renders p ms b g)

  pub each_entry-Renders :
      (p : Js → Bool) (x : Js) {f : String → Js → Ui}
      → record_of p x ≡ true
      → ((k : String) (y : Js) → p y ≡ true → Renders (f k y))
      → Renders (each_entry t (entries x) f)
  unfolding record_of object_fits entries
  each_entry-Renders p undefined h k = absurd (false≢true h)
  each_entry-Renders p null h k = absurd (false≢true h)
  each_entry-Renders p (bool b) h k = absurd (false≢true h)
  each_entry-Renders p (number n) h k = absurd (false≢true h)
  each_entry-Renders p (string s) h k = absurd (false≢true h)
  each_entry-Renders p (array xs) h k = absurd (false≢true h)
  each_entry-Renders p (object ms) h k = members-Renders p ms h k

  -- Entries whose content never throws
  pub each_entry-Renders_all :
      (es : List (String × Js)) {f : String → Js → Ui}
      → ((k : String) (v : Js) → Renders (f k v))
      → Renders (each_entry t es f)
  unfolding each_entry
  each_entry-Renders_all [] h = Renders-some _
  each_entry-Renders_all ((k, v) ∷ es) h = <>-Renders (h k v) (each_entry-Renders_all es h)
