-- ===== src/Simulator/Properties/Reading.antt =====
-- What `csi_camera_get_property` (src/platform/simulator/csi_camera.c) reads.
use csi_hal.Prelude.{
  ℕ, pos, ◌≡◌, refl, ap, ◌∙◌, some, List, [], ◌∷◌, ◌==◌, get_elem?, Option-cases, Bool-cases, inl,
  inr,
}
use mathlib.Core.Path.{subst}
use mathlib.Core.Option.{some-injective}
use csi_hal.Simulator.Types.{Description, Property}
use csi_hal.Simulator.Properties.{index_of, get_properties}
use csi_hal.Simulator.Properties.Assign.{value_of}

value_of-found :
    (id : ℕ) (table : List Description) (found : Description)
    → get_elem? table (index_of id table) ≡ some found
    → value_of id table ≡ some found.value
unfolding index_of value_of
value_of-found id [] found e = cc
value_of-found id (d ∷ table) found e = elim (Bool-cases (id == d.id)) [
  | inl same ↦ rw same (ap (λ o. some o.value) (some-injective d found (rw same at e)))
  | inr other ↦ rw other (value_of-found id table found (rw other at e))
]

-- The properties that are read, one for each that was asked for, with its id and its current value.
abbrev pub AllRead : List Description → List Property → List Property → Type 0
AllRead table [] [] = Unit {0}
AllRead table [] (p' ∷ ps') = ⊥
AllRead table (p ∷ ps) [] = ⊥
AllRead table (p ∷ ps) (p' ∷ ps') =
    (p'.id ≡ p.id) × (value_of p.id table ≡ some p'.value) × AllRead table ps ps'

-- Whatever entry the unset variable of `csi_camera_get_property` picks: where it returns 0, each
-- property that was asked for has been read, in order, with its current value.
pub get_properties-AllRead :
    (id : ℕ) (table : List Description) (ps ps' : List Property)
    → get_properties id table ps ≡ some (pos 0, ps')
    → AllRead table ps ps'
unfolding get_properties
get_properties-AllRead id table [] [] e = tt
get_properties-AllRead id table [] (p' ∷ ps') e = cc
get_properties-AllRead id table (p ∷ ps) ps' e =
    elim (Option-cases (get_elem? table (index_of p.id table))) [
      | inl out ↦ cc (rw (out, get_properties) at e)
      | inr (found, at) ↦ elim (Option-cases (get_elem? table id)) [
        | inl out ↦ cc (rw (at, out, get_properties) at e)
        | inr (checked, at') ↦ elim (Bool-cases (checked.id == 0)) [
          | inl unset ↦ cc (rw (at, at', unset, get_properties) at e)
          | inr set_id ↦ elim (Option-cases (get_properties id table ps)) [
            | inl stuck ↦ cc (rw (at, at', set_id, stuck, get_properties) at e)
            | inr ((ret, qs), rest) ↦
                let same : (ret, record p { type = found.type; value = found.value } ∷ qs)
                    ≡ (pos 0, ps') =
                  some-injective _ _ (rw (at, at', set_id, rest, get_properties) at e) in
                let ok = rest ∙ ap (λ r. some (r.0, qs)) same in
                subst (AllRead table (p ∷ ps)) (ap (λ r. r.1) same) (
                  refl,
                  value_of-found p.id table found at,
                  get_properties-AllRead id table ps qs ok,
                )
          ]
        ]
      ]
    ]
