-- ===== src/Controls/Uses.antt =====
-- What using a control of the page may lead to.
use tsymbiote.Prelude.{◌≡◌, true, String}
use tsymbiote.Prelude.JsSet.{has}
use tsymbiote.Prelude.Dict.{keys}
use tsymbiote.Controls.{
  Control, button, checkbox, input, select, enter_key, Use, pressed, clicked, typed, chosen,
  entered,
}

-- What holds after every use of a control.
abbrev pub After : {P : Type 0} → (P → Type 0) → P → Control P → Type 0
After Q p (button text enabled f) = enabled ≡ true → Q (f p)
After Q p (checkbox label checked f) = Q (f p)
After Q p (input value f) = (t : String) → Q (f t p)
After Q p (select value options f) = (o : String) → has (keys options) o ≡ true → Q (f o p)
After Q p (enter_key f) = Q (f p)

pub Use-After :
    {P : Type 0} (Q : P → Type 0) {p q : P} {k : Control P} → Use p k q → After Q p k → Q q
Use-After Q (pressed text e) h = h e
Use-After Q (clicked label) h = h
Use-After Q (typed t) h = h t
Use-After Q (chosen o e) h = h o e
Use-After Q entered h = h
