-- ===== src/Simulator/Properties/Refused.antt =====
-- Why `csi_camera_set_property` (src/platform/simulator/csi_camera.c) fails on properties that the table
-- has.
use csi_hal.Prelude.{
  ℕ, zero, suc, ◌<◌, ℤ, pos, minus_one, ◌≡◌, ◌⊎◌, inl, inr, refl, ap, ◌∙◌, false, Option, none,
  some, List, [], ◌∷◌, arith, if◌then◌else◌, ◌==◌, get_elem?, take, take-all, Bool-cases,
}
use mathlib.Core.Path.{subst}
use mathlib.Core.Option.{some-injective}
use csi_hal.Simulator.Types.{Value, Description, Property}
use csi_hal.Simulator.Properties.{index_of, known_at, set_properties}
use csi_hal.Simulator.Properties.Assign.{value_of, updated, IsRefused, set_properties-updated}

abbrev pub IsKnown : List Description → ℕ → Type 0
IsKnown table id = (0 < id) × (v : Value) × (value_of id table ≡ some v)

abbrev pub AllKnown : List Description → List Property → Type 0
AllKnown table [] = Unit {0}
AllKnown table (p ∷ ps) = IsKnown table p.id × AllKnown table ps

known-found :
    (id : ℕ) (table : List Description)
    → IsKnown table id
    → (found : Description) × (known_at (index_of id table) table ≡ some found)
unfolding value_of index_of
known-found id [] (h, v, e) = cc
known-found id (d ∷ table) (h, v, e) = elim (Bool-cases (id == d.id)) [
  | inl here ↦ (d, (let named : (d.id == 0) ≡ false = ground arith in rw (here, named) refl))
  | inr past ↦ let (found, at) = known-found id table (h, v, rw past at e) in (found, rw past at)
]

pub updated-some :
    (id : ℕ) (ps : List Property) (o : Option Value) (v : Value)
    → o ≡ some v
    → (v' : Value) × (updated id ps o ≡ some v')
unfolding updated
updated-some id [] o v e = (v, e)
updated-some id (p ∷ ps) none v e = cc
updated-some id (p ∷ ps) (some old) v e =
    let new = if p.id == id then p.value else old in updated-some id ps (some new) new refl

AllKnown-get :
    (table : List Description) (ps : List Property) (n : ℕ) (p : Property)
    → AllKnown table ps
    → get_elem? ps n ≡ some p
    → IsKnown table p.id
AllKnown-get table [] n p k e = cc
AllKnown-get table (q ∷ ps) zero p k e = subst (λ x. IsKnown table x.id) (some-injective q p e) k.0
AllKnown-get table (q ∷ ps) (suc n) p k e = AllKnown-get table ps n p k.1 e

module _ {World : Type 0} (opencv : Property → World → ℤ × World) (idx : ℕ) where
  -- OpenCV refuses some property.
  abbrev pub Refuses : Type 0
  Refuses = (p : Property) × IsRefused opencv idx p

  -- Properties that the table has are all assigned, or OpenCV has refused one.
  pub set_properties-known :
      (ps : List Property) (table : List Description) (w : World)
      → AllKnown table ps
      → let (ret, table', w') = set_properties opencv idx ps table w in
        ((ret ≡ pos 0) × ((id : ℕ) → value_of id table' ≡ updated id ps (value_of id table)))
        ⊎ ((ret ≡ minus_one) × Refuses)
  set_properties-known ps table w k =
      let (ret, table', w') = set_properties opencv idx ps table w in
      let (n, (few, ends, values)) = set_properties-updated opencv idx ps table w in
      elim ends [
        | inl (all, ok) ↦ inl (
          ok,
          λ id.
              values id
              ∙ ap (λ l. updated id l (value_of id table)) (ap (λ m. take m ps) all ∙ take-all ps),
        )
        | inr (failed, (p, at, inr refused)) ↦ inr (failed, (p, refused))
        | inr (failed, (p, at, inl unknown)) ↦
            let (h, v, e) = AllKnown-get table ps n p k at in
            let (v', e') = updated-some p.id (take n ps) (value_of p.id table) v e in
            let (found, there) = known-found p.id table' (h, v', values p.id ∙ e') in cc
      ]
