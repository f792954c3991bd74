-- ===== src/Prelude/Dict/Keys.antt =====
-- The keys of a dictionary, and merging two.
use Prim.Native.String.{String}
use mathlib.Core.Path.{◌≡◌, refl, ◌∙◌}
use mathlib.Core.Logic.{inl, inr}
use mathlib.Core.Bool.{false, ◌||◌}
use mathlib.Core.Option.{none}
use mathlib.Core.List.{[], ◌∷◌}
use native.Mathlib.Omega.{arith}
use text.Mathlib.Text.{◌==◌}
use text.Mathlib.TextEquality.{eq_iff}
use tsymbiote.Prelude.Tests.{or_else, Bool-cases}
use tsymbiote.Prelude.JsSet.{has, IsUnique}
use tsymbiote.Prelude.Dict.{Dict, get, put, keys, spread, get-put}

module _ {ℓ} {V : Type ℓ} where
  pub has-keys-put :
      (d : Dict V) (k : String) (v : V) (j : String)
      → has (keys (put d k v)) j ≡ ((k == j) || has (keys d) j)
  unfolding keys put has
  has-keys-put [] k v j = refl
  has-keys-put ((i, w) ∷ d) k v j = elim (Bool-cases (i == k)) [
    | inl e ↦ rw e (ground (arith, e, eq_iff i k, eq_iff i j, eq_iff k j))
    | inr e ↦ rw e (ground (arith, has-keys-put d k v j))
  ]

  pub put-IsUnique :
      (d : Dict V) (k : String) (v : V) → IsUnique (keys d) → IsUnique (keys (put d k v))
  unfolding keys put
  put-IsUnique [] k v u = (unfold has in refl, tt)
  put-IsUnique ((i, w) ∷ d) k v (new, u) = elim (Bool-cases (i == k)) [
    | inl e ↦ rw e (new, u)
    | inr e ↦ rw e (
      rw (has-keys-put d k v i) (ground (arith, new, e, eq_iff i k, eq_iff k i)),
      put-IsUnique d k v u,
    )
  ]

  pub get_of_not_key : (d : Dict V) (k : String) → has (keys d) k ≡ false → get d k ≡ none
  unfolding keys get has
  get_of_not_key [] k h = refl
  get_of_not_key ((i, w) ∷ d) k h = ground (arith, get_of_not_key d k)

  -- In `{ ...d, ...e }` an entry of `e` wins over one of `d`.
  pub get-spread :
      (d e : Dict V) (k : String)
      → IsUnique (keys e)
      → get (spread d e) k ≡ or_else (get e k) (get d k)
  unfolding spread keys
  get-spread d [] k u = unfold get in refl
  get-spread d ((i, w) ∷ e) k (new, u) =
      get-spread (put d i w) e k u
      ∙ (rw (get-put d i k w) (elim (Bool-cases (i == k)) [
        | inl same ↦ rw same (
            rw (← (eq_iff i k).0 same)
              (rw (get_of_not_key e i new) (unfold get in ground (arith, eq_iff i i))))
        | inr other ↦ rw other (unfold get in rw other)
      ]))
