-- ===== src/Demo/Settings/Applied.antt =====
-- What `apply_property_setting` (camera_demo3_srcs/dialog_camera_property_list.c) leaves in the camera.
use csi_hal.Prelude.{
  ℕ, zero, suc, ◌<◌, ℤ, pos, minus_one, ◌≡◌, ◌⊎◌, inl, inr, refl, ap, sym, ◌∙◌, true, false, Option,
  none, some, List, [], ◌∷◌, arith, ◌==◌, take, take-all, length, Bool-cases, Option-cases,
}
use csi_hal.Simulator.Types.{Value, Description, Property}
use csi_hal.Simulator.Properties.{index_of, set_properties}
use csi_hal.Simulator.Properties.Query.{Distinct, AllNamed}
use csi_hal.Simulator.Properties.Assign.{
  value_of, updated, assigned, assigned-other, set_properties-updated,
}
use csi_hal.Simulator.Properties.Refused.{AllKnown, Refuses, set_properties-known, updated-some}
use csi_hal.Demo.Settings.{
  eq_value, differs, get_property_diff_count, property_of, apply_property_setting,
}
use csi_hal.Demo.Settings.Values.{eq_value_self, eq_value_sound}
use csi_hal.Demo.Settings.Filling.{
  differences, fill_properties-differences, is_other, differs-value,
}

same-value :
    (v : Value) (o : Option Value) (old : Value) → o ≡ some old → is_other v o ≡ false → o ≡ some v
same-value v none old e same = cc
same-value v (some x) old e same = elim (Bool-cases (eq_value v x)) [
  | inl equal ↦ ap some (sym (eq_value_sound v x equal))
  | inr other ↦ cc (rw other at same)
]

-- The camera has the value of each node.
abbrev pub AllSet : List Description → List Description → Type 0
AllSet table [] = Unit {0}
AllSet table (node ∷ nodes) = (value_of node.id table ≡ some node.value) × AllSet table nodes

-- The camera has a value for each node.
abbrev pub AllHere : List Description → List Description → Type 0
AllHere table [] = Unit {0}
AllHere table (node ∷ nodes) =
    ((v : Value) × (value_of node.id table ≡ some v)) × AllHere table nodes

-- An id that no node has keeps its value.
updated-absent :
    (id n : ℕ) (table nodes : List Description) (v : Option Value)
    → index_of id nodes ≡ length nodes
    → updated id (take n (differences table nodes)) v ≡ v
unfolding updated differences index_of
updated-absent id zero table nodes v e = refl
updated-absent id (suc n) table [] v e = refl
updated-absent id (suc n) table (node ∷ nodes) v e =
    let absent : index_of id nodes ≡ length nodes = ground arith in
    let other : (node.id == id) ≡ false = ground arith in
    elim (Bool-cases (differs table node)) [
      | inl taken ↦
          rw (taken, ← assigned-other id (property_of node) v other)
            (updated-absent id n table nodes v absent)
      | inr same ↦ rw same (updated-absent id (suc n) table nodes v absent)
    ]

updated-all :
    (id : ℕ) (table nodes : List Description) (v : Option Value)
    → index_of id nodes ≡ length nodes
    → updated id (differences table nodes) v ≡ v
updated-all id table nodes v e =
    ap (λ ps. updated id ps v) (sym (take-all (differences table nodes)))
    ∙ updated-absent id (length (differences table nodes)) table nodes v e

-- An assignment of a value leaves no other value.
assigned-same :
    (node : Description) (v : Option Value)
    → is_other node.value (assigned node.id (property_of node) v) ≡ false
assigned-same node none = refl
assigned-same node (some old) =
    let here : (node.id == node.id) ≡ true = ground arith in
    rw (here, eq_value_self node.value) refl

-- The first node is as in the camera behind the assignments of all.
head-settled :
    (table nodes : List Description) (node : Description)
    → Distinct (node ∷ nodes)
    → 0 < node.id
    → is_other node.value
        (updated node.id (differences table (node ∷ nodes)) (value_of node.id table))
      ≡ false
unfolding updated differences Distinct
head-settled table nodes node v h =
    let (small, alone) = v.0 h in
    let old = value_of node.id table in
    elim (Bool-cases (differs table node)) [
      | inl other ↦ rw other (
          rw (updated-all node.id table nodes (assigned node.id (property_of node) old) alone)
            (assigned-same node old))
      | inr same ↦ rw same (
          rw (updated-all node.id table nodes old alone)
            (sym (differs-value table node h small) ∙ same))
    ]

-- The first node does not concern the id of a later one.
tail-updated :
    (id : ℕ) (table nodes : List Description) (node : Description) (v : Option Value)
    → Distinct (node ∷ nodes)
    → 0 < node.id
    → index_of id nodes < length nodes
    → updated id (differences table (node ∷ nodes)) v ≡ updated id (differences table nodes) v
unfolding updated differences Distinct
tail-updated id table nodes node v d h there =
    let other : (node.id == id) ≡ false = elim (Bool-cases (node.id == id)) [
      | inl same ↦
          let e : node.id ≡ id = ground arith in
          absurd (omega (arith, there, ap (λ x. index_of x nodes) e, (d.0 h).1))
      | inr e ↦ e
    ] in
    elim (Bool-cases (differs table node)) [
      | inl taken ↦ rw taken (
          ap (updated id (differences table nodes))
            (sym (assigned-other id (property_of node) v other)))
      | inr same ↦ rw same refl
    ]

-- A camera that has the values behind the assignments of all nodes has the values of the nodes.
settled :
    (table table' nodes : List Description)
    → Distinct nodes
    → AllNamed nodes
    → AllHere table nodes
    → ((id : ℕ)
        → index_of id nodes < length nodes
        → value_of id table' ≡ updated id (differences table nodes) (value_of id table))
    → AllSet table' nodes
unfolding Distinct index_of
settled table table' [] d names here values = tt
settled table table' (node ∷ nodes) d names ((v, old), others) values =
    let inside : index_of node.id (node ∷ nodes) < length (node ∷ nodes) = ground arith in
    let now = values node.id inside in
    let (v', new) =
      updated-some node.id (differences table (node ∷ nodes)) (value_of node.id table) v old in
    (
      now
          ∙ same-value node.value
              (updated node.id (differences table (node ∷ nodes)) (value_of node.id table)) v' new
              (head-settled table nodes node d names.0),
      settled table table' nodes d.1 names.1 others (λ id there.
          values id (ground (arith, there))
          ∙ tail-updated id table nodes node (value_of id table) d names.0 there),
    )

-- The camera has the properties of the nodes that differ from it.
differences-AllKnown :
    (table nodes : List Description)
    → Distinct nodes
    → AllNamed nodes
    → AllKnown table (differences table nodes)
unfolding differences Distinct
differences-AllKnown table [] d names = tt
differences-AllKnown table (node ∷ nodes) d names =
    let known = differences-AllKnown table nodes d.1 names.1 in
    elim (Bool-cases (differs table node)) [
      | inl other ↦
          let same = differs-value table node names.0 (d.0 names.0).0 in
          elim (Option-cases (value_of node.id table)) [
            | inl out ↦ cc
            | inr (v, e) ↦ rw other ((names.0, v, e), known)
          ]
      | inr same ↦ rw same known
    ]

module _ {World : Type 0} (opencv : Property → World → ℤ × World) (idx : ℕ) where
  -- For nodes with an id each that the camera has, other than 0 and without the flag bit: `apply_property_setting` never
  -- writes outside the array that it allocates. It returns 0, and the camera has the value of each node,
  -- or -1, where the camera is not the fake one and OpenCV refuses a property; and whatever it
  -- returns, a property that no node names keeps its value.
  pub apply_property_setting-settles :
      (garbage : Property) (nodes table : List Description) (w : World)
      → Distinct nodes
      → AllNamed nodes
      → AllHere table nodes
      → (ret : ℤ) × (table' : List Description) × (w' : World) × (apply_property_setting opencv idx
            garbage nodes table w
          ≡ some (ret, table', w'))
        × (((ret ≡ pos 0) × AllSet table' nodes) ⊎ ((ret ≡ minus_one) × Refuses opencv idx))
        × ((id : ℕ) → index_of id nodes ≡ length nodes → value_of id table' ≡ value_of id table)
  unfolding apply_property_setting
  apply_property_setting-settles garbage nodes table w d names here =
      let ps = differences table nodes in
      let (ret, table', w') = set_properties opencv idx ps table w in
      let (n, (few, ends, values)) = set_properties-updated opencv idx ps table w in
      let known = differences-AllKnown table nodes d names in
      let filled =
        fill_properties-differences table nodes [] 0 (get_property_diff_count table nodes) garbage
          refl refl in
      (
        ret,
        table',
        w',
        rw filled refl,
        elim (set_properties-known opencv idx ps table w known) [
          | inl (ok, whole) ↦
              inl (ok, settled table table' nodes d names here (λ id there. whole id))
          | inr refused ↦ inr refused
        ],
        λ id absent. values id ∙ updated-absent id n table nodes (value_of id table) absent,
      )
