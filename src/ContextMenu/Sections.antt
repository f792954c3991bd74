-- ===== src/ContextMenu/Sections.antt =====
-- Opening and closing the sections of the menu.
use tsymbiote.Prelude.{String, ◌≡◌, refl, Bool, not, ◌==◌, eq_iff, if◌then◌else◌, arith}
use tsymbiote.Prelude.JsSet.{JsSet, has, has-add, has-delete}
use tsymbiote.Js.{Js}
use tsymbiote.Js.Jsx.{Texts}
use tsymbiote.ContextMenu.{toggle_section, node_context_menu}

-- A click on a header turns over its section and no other.
pub has-toggle_section :
    (c : JsSet) (s k : String)
    → has (toggle_section c s) k ≡ (if s == k then not (has c k) else has c k)
unfolding toggle_section
has-toggle_section c s k = ground (arith, has-add c s k, has-delete c s k, eq_iff s k)

module _ (t : Texts) where
  -- The menu depends on the collapsed sections only as a set.
  menu-agree :
      (c d : JsSet) (is_host : Bool) (n : Js)
      → ((k : String) → has c k ≡ has d k)
      → node_context_menu t is_host c n ≡ node_context_menu t is_host d n
  unfolding node_context_menu
  menu-agree c d is_host n e =
      rw
        (
          e "status",
          e "identity",
          e "network",
          e "exitnode",
          e "tags",
          e "traffic",
          e "timestamps",
          e "additional",
        )
        refl

  -- Two clicks on the same header leave the menu of every node as it was, whatever is collapsed.
  pub node_context_menu-toggle_twice :
      (collapsed : JsSet) (s : String) (is_host : Bool) (n : Js)
      → node_context_menu t is_host (toggle_section (toggle_section collapsed s) s) n
        ≡ node_context_menu t is_host collapsed n
  node_context_menu-toggle_twice collapsed s is_host n = menu-agree _ _ is_host n λ k.
      ground (
        arith,
        has-toggle_section (toggle_section collapsed s) s k,
        has-toggle_section collapsed s k,
      )
