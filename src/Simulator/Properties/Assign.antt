-- ===== src/Simulator/Properties/Assign.antt =====
-- What `csi_camera_set_property` (src/platform/simulator/csi_camera.c) does to the values, also where
-- it stops in the middle.
use csi_hal.Prelude.{
  ℕ, suc, ◌≤◌, ℤ, pos, minus_one, is_zero, ◌≡◌, ◌≢◌, ◌⊎◌, inl, inr, refl, ap, sym, ◌∙◌, true, false,
  not, ◌&&◌, Option, none, some, List, [], ◌∷◌, arith, if◌then◌else◌, ◌==◌, get_elem?, set, take,
  length, Option-cases, Bool-cases,
}
use mathlib.Core.Option.{some-injective}
use csi_hal.Simulator.Types.{Value, Description, Property}
use csi_hal.Simulator.Properties.{index_of, known_at, set_properties}

-- The current value of an id, as a search finds it.
unfoldable pub value_of : ℕ → List Description → Option Value
value_of id [] = none
value_of id (d ∷ table) = if id == d.id then some d.value else value_of id table

-- One assignment to what a search finds
abbrev pub assigned : ℕ → Property → Option Value → Option Value
assigned id p none = none
assigned id p (some old) = some (if p.id == id then p.value else old)

-- The value of an id behind the assignments, in order.
unfoldable pub updated : ℕ → List Property → Option Value → Option Value
updated id [] v = v
updated id (p ∷ ps) v = updated id ps (assigned id p v)

pub assigned-other :
    (id : ℕ) (p : Property) (v : Option Value) → (p.id == id) ≡ false → v ≡ assigned id p v
assigned-other id p none h = refl
assigned-other id p (some old) h = rw h refl

head-value :
    (id : ℕ) (p : Property) (d : Description) (table : List Description)
    → (p.id == d.id) ≡ true
    → value_of id (record d { value = p.value } ∷ table) ≡ assigned id p (value_of id (d ∷ table))
unfolding value_of
head-value id p d table same = elim (Bool-cases (id == d.id)) [
  | inl here ↦ let hit : (p.id == id) ≡ true = ground arith in simp (here, hit) refl
  | inr past ↦ simp past (assigned-other id p (value_of id table) (ground arith))
]

tail-value :
    (id : ℕ) (p : Property) (d : Description) (table rest : List Description)
    → (p.id == d.id) ≡ false
    → value_of id rest ≡ assigned id p (value_of id table)
    → value_of id (d ∷ rest) ≡ assigned id p (value_of id (d ∷ table))
unfolding value_of
tail-value id p d table rest other e = elim (Bool-cases (id == d.id)) [
  | inl here ↦ let miss : (p.id == id) ≡ false = ground arith in simp (here, miss) refl
  | inr past ↦ simp past e
]

pub value_of-set :
    (id : ℕ) (p : Property) (table : List Description) (found : Description)
    → get_elem? table (index_of p.id table) ≡ some found
    → value_of id (set table (index_of p.id table) (record found { value = p.value }))
      ≡ assigned id p (value_of id table)
unfolding index_of value_of
value_of-set id p [] found e = cc
value_of-set id p (d ∷ table) found e = elim (Bool-cases (p.id == d.id)) [
  | inl same ↦
      let here : d ≡ found = some-injective _ _ (rw same at e) in
      rw same (rw (sym here) (head-value id p d table same))
  | inr other ↦ rw other (
      tail-value id p d table (set table (index_of p.id table) (record found { value = p.value }))
        other (value_of-set id p table found (rw other at e)))
]

pub known_at-found :
    (i : ℕ) (table : List Description) (found : Description)
    → known_at i table ≡ some found
    → get_elem? table i ≡ some found
known_at-found i table found e = elim (Option-cases (get_elem? table i)) [
  | inl out ↦ cc (rw (out, known_at) at e)
  | inr (d, at) ↦ ground arith
]

module _ {World : Type 0} (opencv : Property → World → ℤ × World) (idx : ℕ) where
  -- The camera is not the fake one, and OpenCV refuses the property.
  abbrev pub IsRefused : Property → Type 0
  IsRefused p = (idx ≢ 4) × (w : World) × (is_zero (opencv p w).0 ≡ false)

  -- The property at which the loop stops is not in the table, or refused.
  abbrev pub Stops : List Property → List Description → ℕ → Type 0
  Stops ps table n =
      (p : Property) × (get_elem? ps n ≡ some p)
      × ((known_at (index_of p.id table) table ≡ none) ⊎ IsRefused p)

  -- `n` properties from the front are assigned, and the code is 0 if that is all of them.
  abbrev pub Assigns : List Property → List Description → List Description → ℤ → ℕ → Type 0
  Assigns ps table table' ret n =
      (n ≤ length ps)
      × (((n ≡ length ps) × (ret ≡ pos 0)) ⊎ ((ret ≡ minus_one) × Stops ps table' n))
      × ((id : ℕ) → value_of id table' ≡ updated id (take n ps) (value_of id table))

  -- What there is to say where the loop stops before its first entry.
  stopped :
      (p : Property) (ps : List Property) (table : List Description)
      → (known_at (index_of p.id table) table ≡ none) ⊎ IsRefused p
      → (n : ℕ) × Assigns (p ∷ ps) table table minus_one n
  unfolding updated
  stopped p ps table why = (0, (omega arith, inr (refl, (p, refl, why)), λ id. refl))

  further :
      (p : Property) (ps : List Property) (table table' : List Description) (ret : ℤ) (n : ℕ)
      → ((n ≡ length ps) × (ret ≡ pos 0)) ⊎ ((ret ≡ minus_one) × Stops ps table' n)
      → ((suc n ≡ length (p ∷ ps)) × (ret ≡ pos 0))
        ⊎ ((ret ≡ minus_one) × Stops (p ∷ ps) table' (suc n))
  further p ps table table' ret n (inl (all, ok)) = inl (ap suc all, ok)
  further p ps table table' ret n (inr why) = inr why

  -- The property structs in order, up to the first that the table does not know or that OpenCV
  -- refuses: these are assigned and no other. The code is 0 if that is all of them, and else -1.
  pub set_properties-updated :
      (ps : List Property) (table : List Description) (w : World)
      → let (ret, table', w') = set_properties opencv idx ps table w in
        (n : ℕ) × Assigns ps table table' ret n
  unfolding set_properties updated
  set_properties-updated [] table w = (0, (omega arith, inl (refl, refl), λ id. refl))
  set_properties-updated (p ∷ ps) table w =
      let (ret, w') = opencv p w in
      let w₁ : World = if idx == 4 then w else w' in
      elim (Option-cases (known_at (index_of p.id table) table)) [
        | inl out ↦ rw (out, set_properties) (stopped p ps table (inl out))
        | inr (found, e) ↦ elim (Bool-cases (not (idx == 4) && not (is_zero ret))) [
          | inl refused ↦
              let why : IsRefused p = ((λ same. ground arith), w, ground arith) in
              rw (e, refused, set_properties) (stopped p ps table (inr why))
          | inr taken ↦
              let table₁ = set table (index_of p.id table) (record found { value = p.value }) in
              let (n, (few, ends, values)) = set_properties-updated ps table₁ w₁ in
              let (code, table', w₂) = set_properties opencv idx ps table₁ w₁ in
              let one = λ (id : ℕ).
                value_of-set id p table found
                  (known_at-found (index_of p.id table) table found e) in
              rw (e, taken, set_properties)
                (
                  suc n,
                  (
                    omega (arith, few),
                    further p ps table table' code n ends,
                    λ id. values id ∙ ap (updated id (take n ps)) (one id),
                  ),
                )
        ]
      ]
