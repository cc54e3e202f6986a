-- ===== src/Demo/Settings/Opened.antt =====
-- The list that the dialog of a camera's properties starts with (`init_camera_property_items` of
-- camera_demo3_srcs/dialog_camera_property_list.c).
use csi_hal.Prelude.{
  ℕ, zero, suc, ◌+◌, ◌<◌, ◌≤◌, pos, minus_one, ◌≡◌, inl, inr, refl, ap, sym, ◌∙◌, false, some, List,
  [], ◌∷◌, ◌++◌, arith, leb, get_elem?, get_elem?-inside, length, drop, replicate, Option-cases,
}
use csi_hal.Simulator.Types.{Description}
use csi_hal.Simulator.Properties.{flag_next_ctrl, no_description, csi_camera_query_property}
use csi_hal.Simulator.Properties.Query.{
  Distinct, AllNamed, index_of-at, query-entry, get_elem?-named, known_at-named, drop-step,
  drop-none,
}
use csi_hal.Demo.Settings.{
  pid_hflip, set_flag, desc_list_add, query_items, init_camera_property_items,
}

append-nil : (nodes : List Description) → nodes ++ [] ≡ nodes
append-nil [] = refl
append-nil (d ∷ nodes) = ap (λ l. d ∷ l) (append-nil nodes)

append-one :
    (nodes rest : List Description) (d : Description)
    → (nodes ++ d ∷ []) ++ rest ≡ nodes ++ d ∷ rest
append-one [] rest d = refl
append-one (b ∷ nodes) rest d = ap (λ l. b ∷ l) (append-one nodes rest d)

module _ (fuel : ℕ) (table nodes : List Description) (desc : Description) where
  found-step :
      (d : Description)
      → csi_camera_query_property table (some desc) ≡ (pos 0, some d)
      → query_items (suc fuel) table desc nodes
        ≡ query_items fuel table (set_flag d) (nodes ++ d ∷ [])
  unfolding query_items desc_list_add
  found-step d e = rw (e, e, query_items) refl

  last-step :
      (desc' : Description)
      → csi_camera_query_property table (some desc) ≡ (minus_one, some desc')
      → query_items (suc fuel) table desc nodes ≡ some nodes
  unfolding query_items
  last-step desc' e = rw (e, e, query_items) refl

-- From the entry at a place on, the loop adds the named entries behind it.
query_items-drop :
    (fuel m k : ℕ) (named nodes : List Description) (d : Description)
    → let table = named ++ replicate m no_description in
      Distinct table
      → AllNamed named
      → get_elem? named k ≡ some d
      → length named ≤ k + fuel
      → query_items fuel table (set_flag d) nodes ≡ some (nodes ++ drop (suc k) named)
unfolding query_items
query_items-drop zero m k named nodes d v names e few =
    absurd (omega (arith, get_elem?-inside named k d e))
query_items-drop (suc n) m k named nodes d v names e few =
    let table = named ++ replicate m no_description in
    let (there, h) = get_elem?-named named k m d names e in
    let (at, small) = index_of-at table k d v there h in
    let low : leb flag_next_ctrl d.id ≡ false = ground arith in
    let flagged : set_flag d ≡ record d { id = flag_next_ctrl + d.id } = rw low refl in
    let asked = (query-entry table k d d v there h).1 in
    let next = known_at-named named (suc k) m names in
    let behind = record d { id = flag_next_ctrl + d.id } in
    ap (λ desc. query_items (suc n) table desc nodes) flagged
    ∙ elim (Option-cases (get_elem? named (suc k))) [
      | inl e' ↦
          last-step n table nodes behind d (rw (next, e') at asked)
          ∙ rw (drop-none named (suc k) e') (ap some (sym (append-nil nodes)))
      | inr (d', e') ↦
          found-step n table nodes behind d' (rw (next, e') at asked)
          ∙ query_items-drop n m (suc k) named (nodes ++ d' ∷ []) d' v names e' (omega arith)
          ∙ ap some (append-one nodes (drop (suc (suc k)) named) d')
          ∙ rw (drop-step named (suc k) d' e') refl
    ]

-- On a table whose named entries start with the horizontal flip, each with its own id, the dialog
-- lists all of them in order, in one turn more than there are entries.
pub init_camera_property_items-named :
    (fuel m : ℕ) (first : Description) (named : List Description) (unset : Description)
    → let table = (first ∷ named) ++ replicate m no_description in
      Distinct table
      → AllNamed (first ∷ named)
      → first.id ≡ pid_hflip
      → length named < fuel
      → init_camera_property_items (suc fuel) table unset [] ≡ some (first ∷ named)
unfolding init_camera_property_items
init_camera_property_items-named fuel m first named unset v names e few =
    let table = (first ∷ named) ++ replicate m no_description in
    let asked = (query-entry table 0 first unset v refl names.0).0 in
    let rest =
      query_items-drop fuel m 0 (first ∷ named) (first ∷ []) first v names refl (omega arith) in
    ap (λ id. query_items (suc fuel) table (record unset { id = id }) []) (sym e)
    ∙ found-step fuel table [] (record unset { id = first.id }) first asked
    ∙ rest
