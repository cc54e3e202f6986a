-- ===== src/Demo/Settings/Filling.antt =====
-- The array that `apply_property_setting` fills, and what a query answers.
use csi_hal.Prelude.{
  ℕ, zero, suc, ◌+◌, ◌%◌, ◌<◌, pos, minus_one, ◌≡◌, inl, inr, refl, ap, ◌∙◌, Bool, true, false, not,
  Option, none, some, List, [], ◌∷◌, ◌++◌, arith, if◌then◌else◌, ◌==◌, ltb, leb, get_elem?, length,
  length-append, set, replicate, Option-cases, Bool-cases,
}
use mathlib.Core.Option.{some-injective}
use csi_hal.Simulator.Types.{Value, Description, Property}
use csi_hal.Simulator.Properties.{
  index_of, flag_next_ctrl, no_description, csi_camera_query_property,
}
use csi_hal.Simulator.Properties.Assign.{value_of}
use csi_hal.Demo.Settings.{eq_value, differs, get_property_diff_count, property_of, fill_properties}

-- The properties of the nodes that differ from the camera
unfoldable pub differences : List Description → List Description → List Property
differences table [] = []
differences table (node ∷ nodes) =
    let rest = differences table nodes in
    if differs table node then property_of node ∷ rest else rest

set-end :
    (done rest : List Property) (i : ℕ) (g p : Property)
    → i ≡ length done
    → set (done ++ g ∷ rest) i p ≡ (done ++ p ∷ []) ++ rest
set-end [] rest zero g p e = refl
set-end [] rest (suc i) g p e = absurd (omega arith)
set-end (d ∷ done) rest zero g p e = absurd (omega arith)
set-end (d ∷ done) rest (suc i) g p e = ap (λ l. d ∷ l) (set-end done rest i g p (omega arith))

append-one :
    (done rest : List Property) (p : Property) → (done ++ p ∷ []) ++ rest ≡ done ++ p ∷ rest
append-one [] rest p = refl
append-one (d ∷ done) rest p = ap (λ l. d ∷ l) (append-one done rest p)

fill-step :
    (table nodes : List Description) (node : Description) (property : List Property) (i : ℕ)
    → differs table node ≡ true
    → i < length property
    → fill_properties table (node ∷ nodes) i property
      ≡ fill_properties table nodes (i + 1) (set property i (property_of node))
unfolding fill_properties
fill-step table nodes node property i other h =
    let inside : ltb i (length property) ≡ true = ground arith in
    rw (other, inside, fill_properties) refl

fill-skip :
    (table nodes : List Description) (node : Description) (property : List Property) (i : ℕ)
    → differs table node ≡ false
    → fill_properties table (node ∷ nodes) i property ≡ fill_properties table nodes i property
unfolding fill_properties
fill-skip table nodes node property i same = rw (same, fill_properties) refl

-- An array with an entry for each node that differs is filled without a write behind its end.
pub fill_properties-differences :
    (table nodes : List Description) (done : List Property) (i m : ℕ) (garbage : Property)
    → i ≡ length done
    → get_property_diff_count table nodes ≡ m
    → fill_properties table nodes i (done ++ replicate m garbage)
      ≡ some (done ++ differences table nodes)
unfolding fill_properties get_property_diff_count differences
fill_properties-differences table [] done i zero garbage e count = refl
fill_properties-differences table [] done i (suc m) garbage e count = absurd (omega arith)
fill_properties-differences table (node ∷ nodes) done i zero garbage e count =
    elim (Bool-cases (differs table node)) [
      | inl other ↦ absurd (omega (arith, rw other at count))
      | inr same ↦
          fill-skip table nodes node (done ++ replicate 0 garbage) i same
          ∙ rw same
              (fill_properties-differences table nodes done i zero garbage e (rw same at count))
    ]
fill_properties-differences table (node ∷ nodes) done i (suc m) garbage e count =
    elim (Bool-cases (differs table node)) [
      | inl other ↦
          let p = property_of node in
          let few : get_property_diff_count table nodes ≡ m = omega (arith, rw other at count) in
          let inside : i < length (done ++ garbage ∷ replicate m garbage) =
            omega (arith, length-append done (garbage ∷ replicate m garbage)) in
          let next : i + 1 ≡ length (done ++ p ∷ []) = omega (arith, length-append done (p ∷ [])) in
          let filled =
            fill_properties-differences table nodes (done ++ p ∷ []) (i + 1) m garbage next few in
          fill-step table nodes node (done ++ garbage ∷ replicate m garbage) i other inside
          ∙ ap (fill_properties table nodes (i + 1))
              (set-end done (replicate m garbage) i garbage p e)
          ∙ rw other (filled ∙ ap some (append-one done (differences table nodes) p))
      | inr same ↦
          fill-skip table nodes node (done ++ replicate (suc m) garbage) i same
          ∙ rw same
              (fill_properties-differences table nodes done i (suc m) garbage e (rw same at count))
    ]

found-id :
    (id : ℕ) (table : List Description) (d : Description)
    → get_elem? table (index_of id table) ≡ some d
    → (d.id ≡ id) × (value_of id table ≡ some d.value)
unfolding index_of value_of
found-id id [] d e = cc
found-id id (b ∷ table) d e = elim (Bool-cases (id == b.id)) [
  | inl here ↦
      let same : b ≡ d = some-injective _ _ (rw here at e) in
      rw here (ground (arith, ap (λ x. x.id) same), ap (λ x. some x.value) same)
  | inr past ↦ rw past (found-id id table d (rw past at e))
]

missing :
    (id : ℕ) (table : List Description)
    → get_elem? table (index_of id table) ≡ none
    → value_of id table ≡ none
unfolding index_of value_of
missing id [] e = refl
missing id (b ∷ table) e = elim (Bool-cases (id == b.id)) [
  | inl here ↦ cc (rw here at e)
  | inr past ↦ rw past (missing id table (rw past at e))
]

-- Whether a value is there and another
abbrev pub is_other : Value → Option Value → Bool
is_other v none = false
is_other v (some old) = not (eq_value v old)

module _ (table : List Description) (asked : Description) (h : 0 < asked.id)
    (small : asked.id < flag_next_ctrl) where
  pub query-missing :
      get_elem? table (index_of asked.id table) ≡ none
      → csi_camera_query_property table (some asked) ≡ (minus_one, some asked)
  unfolding csi_camera_query_property
  query-missing out =
      let plain : asked.id % flag_next_ctrl ≡ asked.id = omega arith in
      let down : leb flag_next_ctrl asked.id ≡ false = ground arith in
      rw (plain, out, down, out, csi_camera_query_property)
        (ap (λ i. (minus_one, some (record asked { id = i }))) plain)

  pub query-found :
      (d : Description)
      → get_elem? table (index_of asked.id table) ≡ some d
      → csi_camera_query_property table (some asked) ≡ (pos 0, some d)
  unfolding csi_camera_query_property
  query-found d at =
      let plain : asked.id % flag_next_ctrl ≡ asked.id = omega arith in
      let down : leb flag_next_ctrl asked.id ≡ false = ground arith in
      let named : (d.id == 0) ≡ false = ground (arith, (found-id asked.id table d at).0) in
      rw (plain, at, down, at, named, csi_camera_query_property) refl

-- The test of a node by the value that a search finds in the table
pub differs-value :
    (table : List Description) (node : Description)
    → 0 < node.id
    → node.id < flag_next_ctrl
    → differs table node ≡ is_other node.value (value_of node.id table)
unfolding differs
differs-value table node h small =
    let asked = record no_description { id = node.id } in
    elim (Option-cases (get_elem? table (index_of node.id table))) [
      | inl out ↦
          rw (query-missing table asked h small out, missing node.id table out, differs) refl
      | inr (d, at) ↦
          rw (query-found table asked h small d at, (found-id node.id table d at).1, differs) refl
    ]
