-- ===== src/Demo/Settings.antt =====
-- The dialog of a camera's properties, camera_demo3_srcs/dialog_camera_property_list.c, on the simulated
-- camera: the list of descriptions that it edits, and how it applies what was edited. The session is
-- open and not running, so that the manager passes its calls on.
pub mod Filling
pub mod Values
pub mod Applied
pub mod Opened
pub mod Menu
mod Tests
use csi_hal.Prelude.{
  ℕ, zero, suc, ◌+◌, ◌^◌, ℤ, eq_int, pos, is_zero, Bool, true, false, not, ◌&&◌, ◌||◌, Option, none,
  some, List, [], ◌∷◌, ◌++◌, if◌then◌else◌, ◌==◌, ltb, leb, length, get_elem?, set, replicate,
  ◌>>=◌,
}
use csi_hal.Simulator.Types.{
  Value, bool_value, int_value, enum_value, bitmask_value, Description, Property,
}
use csi_hal.Simulator.Properties.{
  pid_base, flag_next_ctrl, no_description, csi_camera_query_property, set_properties,
}

abbrev eq_bool : Bool → Bool → Bool
eq_bool true b = b
eq_bool false b = not b

-- `memcmp` of two values of one type
abbrev pub eq_value : Value → Value → Bool
eq_value (bool_value a) (bool_value b) = eq_bool a b
eq_value (int_value a) (int_value b) = eq_int a b
eq_value (enum_value a) (enum_value b) = eq_int a b
eq_value (bitmask_value a) (bitmask_value b) = a == b
eq_value a b = false

-- `desc_list_add`: the list from `desc_head` on, and the node added behind `desc_cur`, its last one
unfoldable pub desc_list_add : List Description → Description → List Description
desc_list_add nodes desc = nodes ++ desc ∷ []

-- CSI_CAMERA_PID_HFLIP
abbrev pub pid_hflip : ℕ
pid_hflip = pid_base + 1

-- `desc.id |= CSI_CAMERA_FLAG_NEXT_CTRL`
abbrev pub set_flag : Description → Description
set_flag desc = record desc {
  id = if leb flag_next_ctrl desc.id then desc.id else flag_next_ctrl + desc.id;
}

abbrev pub answered : ℤ × Option Description → Option Description
answered (ret, none) = none
answered (ret, some desc) = if is_zero ret then some desc else none

-- The loop of `init_camera_property_items`; `none` where the fuel is used up.
unfoldable pub query_items :
    ℕ → List Description → Description → List Description → Option (List Description)
unfolding csi_camera_query_property desc_list_add
query_items zero table desc nodes = none
query_items (suc fuel) table desc nodes =
    elim (answered (csi_camera_query_property table (some desc))) [
      | none ↦ some nodes
      | some found ↦ query_items fuel table (set_flag found) (desc_list_add nodes found)
    ]

-- `unset` is what the variable `desc` holds at first.
unfoldable pub init_camera_property_items :
    ℕ → List Description → Description → List Description → Option (List Description)
unfolding query_items
init_camera_property_items fuel table unset nodes =
    query_items fuel table (record unset { id = pid_hflip }) nodes

-- The tests of a node in `get_property_diff_count` and in `apply_property_setting`: the camera knows
-- the property, and has another value.
abbrev pub is_different : Value → ℤ × Option Description → Bool
is_different value (ret, none) = false
is_different value (ret, some desc) = is_zero ret && not (eq_value value desc.value)

unfoldable pub differs : List Description → Description → Bool
unfolding csi_camera_query_property
differs table node =
    is_different node.value
      (csi_camera_query_property table (some (record no_description { id = node.id })))

unfoldable pub get_property_diff_count : List Description → List Description → ℕ
unfolding differs
get_property_diff_count table [] = 0
get_property_diff_count table (node ∷ nodes) =
    let count = get_property_diff_count table nodes in
    if differs table node then suc count else count

abbrev pub property_of : Description → Property
property_of node = record { id = node.id; type = node.type; value = node.value }

-- The loop that fills the array `property`; `none` is a write behind its end.
unfoldable pub fill_properties :
    List Description → List Description → ℕ → List Property → Option (List Property)
unfolding differs
fill_properties table [] i property = some property
fill_properties table (node ∷ nodes) i property = elim (differs table node) [
  | false ↦ fill_properties table nodes i property
  | true ↦ elim (ltb i (length property)) [
    | false ↦ none
    | true ↦ fill_properties table nodes (i + 1) (set property i (property_of node))
  ]
]

pub data Choice : Type 0 where
  escape cancel : Choice
  -- The button and the answer to the question behind it
  apply : Bool → Choice
  -- The place of an item, and the value that the dialog for it leaves
  select : ℕ → Value → Choice

-- `waiting` shows the menu and its items; `overrun` has no defined result.
pub data DialogOutcome (World : Type 0) : Type 0 where
  waiting : List Description → DialogOutcome World
  closed : ℤ → List Description → World → DialogOutcome World
  overrun : DialogOutcome World

abbrev pub key_esc : ℤ
key_esc = pos 27

-- The types that `fill_camera_property_items` prints, and those that have a dialog: integers,
-- booleans, enumerations and bit masks, but not strings.
abbrev pub is_edited : ℕ → Bool
is_edited type = type == 1 || type == 2 || type == 3 || type == 8

abbrev pub is_printed : ℕ → Bool
is_printed type = is_edited type || type == 7

-- Whether `fill_camera_property_items` returns 0
unfoldable pub fill_camera_property_items : List Description → Bool
fill_camera_property_items [] = true
fill_camera_property_items (node ∷ nodes) = is_printed node.type && fill_camera_property_items nodes

abbrev pub edited : Description → Value → Description
edited node value = if is_edited node.type then record node { value = value } else node

-- The menu is shown where its items could be filled.
abbrev pub shown :
    {World : Type 0}
    → List Description
    → List Description
    → World
    → DialogOutcome World
    → DialogOutcome World
unfolding fill_camera_property_items
shown nodes table w outcome =
    if fill_camera_property_items nodes then outcome else closed key_esc table w

-- `garbage` is what `malloc` leaves in an entry of the array.
module _ {World : Type 0} (camera_property_set_opencv : Property → World → ℤ × World) (idx : ℕ)
    (garbage : Property) where
  unfoldable pub apply_property_setting :
      List Description → List Description → World → Option (ℤ × List Description × World)
  unfolding get_property_diff_count fill_properties set_properties
  apply_property_setting nodes table w = do
    property ←
        fill_properties table nodes 0 (replicate (get_property_diff_count table nodes) garbage)
    some (set_properties camera_property_set_opencv idx property table w)

  -- From the label `again` on, one choice at a time
  unfoldable pub property_menu :
      List Description → List Description → World → List Choice → DialogOutcome World
  unfolding apply_property_setting fill_camera_property_items
  property_menu nodes table w [] = shown nodes table w (waiting nodes)
  property_menu nodes table w (escape ∷ choices) = closed key_esc table w
  property_menu nodes table w (cancel ∷ choices) = closed key_esc table w
  property_menu nodes table w (apply false ∷ choices) =
      shown nodes table w (property_menu nodes table w choices)
  property_menu nodes table w (apply true ∷ choices) =
      shown nodes table w (elim (apply_property_setting nodes table w) [
        | none ↦ overrun
        | some (ret, table', w') ↦ closed ret table' w'
      ])
  property_menu nodes table w (select k value ∷ choices) =
      shown nodes table w (elim (get_elem? nodes k) [
        | none ↦ closed key_esc table w
        | some node ↦ property_menu (set nodes k (edited node value)) table w choices
      ])

  unfoldable pub dialog_camera_property_list :
      ℕ → Description → List Description → World → List Choice → Option (DialogOutcome World)
  unfolding init_camera_property_items property_menu
  dialog_camera_property_list fuel unset table w choices = do
    nodes ← init_camera_property_items fuel table unset []
    some (property_menu nodes table w choices)
