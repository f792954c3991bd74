-- ===== src/Viewer/Links.antt =====
-- The link of the viewer, and the URLs that it leaves behind.
use tsymbiote.Prelude.{
  ℕ, ◌≡◌, refl, sym, ap, ◌∙◌, Bool, true, false, Option, none, some, List, [], ◌∷◌, arith,
}
use mathlib.Core.Path.{subst}
use tsymbiote.Viewer.{
  ViewerData, Viewer, initial_viewer, revoke, run_cleanup, create_url, unless, run_effect,
  show_data, mount,
}

abbrev pub one_of : Option ℕ → List ℕ
one_of none = []
one_of (some u) = u ∷ []

revoke_one : (o : Option ℕ) → revoke o (one_of o) ≡ []
revoke_one none = refl
revoke_one (some u) = ground arith

module _ {T : Type 0} where
  pub data Reach : Viewer T → Type 0 where
    mounted : (d : ViewerData T) → Reach (mount d)
    shown : {s : Viewer T} (d : ViewerData T) → Reach s → Reach (show_data d s)

  abbrev pub offered_of : Bool → Option T → Option T
  offered_of true o = none
  offered_of false o = o

  -- The file that the viewer offers: none where it shows an error, or has no data.
  unfoldable pub offered : ViewerData T → Option T
  offered d = offered_of d.has_error d.file

  abbrev pub Links : Option T → Viewer T → Type 0
  Links none s = s.live ≡ []
  Links (some f) s = (u : ℕ) × (s.profile_url ≡ some u) × (s.live ≡ u ∷ []) × (s.blob u ≡ some f)

  pub record IsLinked (s : Viewer T) : Type 0 where
    pub link : Links (offered s.shown) s
    pub owned : s.live ≡ one_of s.cleanup

  create-Links :
      (b : Bool) (o : Option T) (s : Viewer T)
      → s.live ≡ []
      → s.cleanup ≡ none
      → let t = unless b (create_url o s) s in
        Links (offered_of b o) t × (t.live ≡ one_of t.cleanup) × (t.shown ≡ s.shown)
  unfolding create_url
  create-Links true o s e c = (e, rw c e, refl)
  create-Links false none s e c = (e, rw c e, refl)
  create-Links false (some f) s e c = ((s.made, refl, rw e refl, ground arith), rw e refl, refl)

  effect-IsLinked : (s : Viewer T) → s.live ≡ [] → s.cleanup ≡ none → IsLinked (run_effect s)
  unfolding run_effect offered
  effect-IsLinked s e c =
      let (links, owned, same) = create-Links s.shown.has_error s.shown.file s e c in
      record {
        link = subst (λ d. Links (offered d) (run_effect s)) (sym same) links;
        owned = owned;
      }

  -- After any sequence of renders: while the viewer offers a file, its link has the only URL that is not
  -- revoked, and that URL holds the file; otherwise every URL is revoked.
  pub Reach-IsLinked : {s : Viewer T} → Reach s → IsLinked s
  unfolding mount show_data run_cleanup
  Reach-IsLinked (mounted d) = effect-IsLinked (initial_viewer d) refl refl
  Reach-IsLinked (shown {s} d before) =
      effect-IsLinked (record (run_cleanup s) { shown = d })
        (ap (revoke s.cleanup) (Reach-IsLinked before).owned ∙ revoke_one s.cleanup) refl

  -- When the viewer is taken down, every URL is revoked.
  unmount_revokes : {s : Viewer T} → Reach s → (run_cleanup s).live ≡ []
  unfolding run_cleanup
  unmount_revokes {s} reached =
      ap (revoke s.cleanup) (Reach-IsLinked reached).owned ∙ revoke_one s.cleanup
