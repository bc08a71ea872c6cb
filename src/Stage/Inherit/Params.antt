-- ===== src/Stage/Inherit/Params.antt =====
-- The session parameters that a stage inherits (`propagateStates` of stage/stage_utils.go).
use pbench.Prelude.{
  ◌≡◌, refl, Option, none, some, [], ◌∷◌, arith, Text, Map, UniqueKeys, lookup, lookup-insert,
  text_eq, text_eq_iff, if◌then◌else◌, ◌∙◌,
}
use pbench.Stage.Inherit.{set_missing, inherit_params}

-- A key that the child has stays, with its value or with null; another is the parent's, unless that is
-- null.
abbrev pub inherited : Option (Option Text) → Option (Option Text) → Option (Option Text)
inherited parent (some v) = some v
inherited none none = none
inherited (some none) none = none
inherited (some (some v)) none = some (some v)

lookup-set_missing :
    (k j v : Text) (held : Option (Option Text)) (child : Map (Option Text))
    → lookup j child ≡ held
    → lookup k (set_missing j v held child)
      ≡ (if text_eq j k then inherited (some (some v)) (lookup k child) else lookup k child)
unfolding set_missing
lookup-set_missing k j v none child h =
    ground (arith, text_eq_iff j k, lookup-insert j k (some v) child)
lookup-set_missing k j v (some o) child h = ground (arith, text_eq_iff j k)

-- The parameters of a stage after its parent has propagated, key by key.
pub lookup-inherit_params :
    (k : Text) (params child : Map (Option Text))
    → UniqueKeys params
    → lookup k (inherit_params params child) ≡ inherited (lookup k params) (lookup k child)
unfolding inherit_params lookup
lookup-inherit_params k [] child u = ground arith
lookup-inherit_params k ((j, none) ∷ params) child (fresh, u) =
    ground (arith, text_eq_iff j k, lookup-inherit_params k params child u)
lookup-inherit_params k ((j, some v) ∷ params) child (fresh, u) =
    lookup-inherit_params k params (set_missing j v (lookup j child) child) u
    ∙ ground (arith, text_eq_iff j k, lookup-set_missing k j v (lookup j child) child refl)
