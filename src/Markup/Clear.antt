-- ===== src/Markup/Clear.antt =====
-- Markup that shows as a given text.
use mathlib.Core.List.{append_assoc, append-nil}
use mathlib.Core.Path.{subst}
use tsymbiote.Prelude.{◌≡◌, sym, ap, ◌∙◌, true, false, [], ◌++◌}
use tsymbiote.Prelude.Text.{Text, codes}
use tsymbiote.Prelude.Text.Laws.{Lacks, All-split}
use tsymbiote.Markup.{escape_html, span}
use tsymbiote.Markup.Shown.{visible, decode, shown, decode-escape_html, visible-append}

-- Wherever the markup stands outside a tag, the text is what is seen of it.
unfoldable pub IsClear : Text → Text → Type 0
IsClear html t = (rest : Text) → visible false (html ++ rest) ≡ t ++ visible false rest

pub shown-IsClear : (html t : Text) → IsClear html (escape_html t) → shown html ≡ t
unfolding IsClear shown visible
shown-IsClear html t h =
    ap (decode 0) (ap (visible false) (sym (append-nil html)) ∙ h [] ∙ append-nil (escape_html t))
    ∙ decode-escape_html t

pub plain-IsClear : (t : Text) → Lacks b'<' t → IsClear t t
unfolding IsClear
plain-IsClear t h rest = visible-append t rest h

pub append-IsClear : (x y s t : Text) → IsClear x s → IsClear y t → IsClear (x ++ y) (s ++ t)
unfolding IsClear
append-IsClear x y s t h k rest =
    ap (visible false) (append_assoc x y rest)
    ∙ h (y ++ rest)
    ∙ ap (λ r. s ++ r) (k rest)
    ∙ sym (append_assoc s t (visible false rest))

-- The class must not end the tag.
unfoldable pub Skips : Text → Type 0
Skips cls = (rest : Text) → visible true (cls ++ rest) ≡ visible true rest

pub span-IsClear : (cls t : Text) → Skips cls → Lacks b'<' t → IsClear (span cls t) t
unfolding IsClear Skips visible
span-IsClear cls t h k rest =
    ap (visible true) (append_assoc cls (codes "\">" ++ (t ++ codes "</span>")) rest)
    ∙ h ((codes "\">" ++ (t ++ codes "</span>")) ++ rest)
    ∙ ap (visible false) (append_assoc t (codes "</span>") rest)
    ∙ visible-append t (codes "</span>" ++ rest) k

-- The same for a text that begins no tag.
pub record Marks (html t : Text) : Type 0 where
  pub clear : Lacks b'<' t → IsClear html t

pub plain-Marks : (t : Text) → Marks t t
plain-Marks t = record { clear = plain-IsClear t }

pub span-Marks : (cls t : Text) → Skips cls → Marks (span cls t) t
span-Marks cls t k = record { clear = span-IsClear cls t k }

pub append-Marks : {x y s t : Text} → Marks x s → Marks y t → Marks (x ++ y) (s ++ t)
append-Marks {x} {y} {s} {t} h k = record {
  clear =
      λ l. let (ls, lt) = All-split b'<' s t l in append-IsClear x y s t (h.clear ls) (k.clear lt);
}

pub Marks-of_eq : {html s t : Text} → t ≡ s → Marks html s → Marks html t
Marks-of_eq {html} e h = subst (Marks html) (sym e) h
