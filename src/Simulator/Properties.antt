-- ===== src/Simulator/Properties.antt =====
-- The properties of the simulated camera (src/platform/simulator/csi_camera.c): the table
-- `g_camera_property_descriptions` is a list, and each function returns what it leaves.
pub mod Query
pub mod Assign
pub mod Reading
pub mod Refused
pub mod Shipped
use csi_hal.Prelude.{
  ℕ, suc, ◌+◌, ◌-◌, ◌%◌, ◌^◌, ℤ, pos, minus_one, is_zero, Bool, true, false, not, ◌&&◌, Option,
  none, some, List, [], ◌∷◌, ◌++◌, replicate, if◌then◌else◌, ◌==◌, leb, get_elem?, set,
}
use csi_hal.Simulator.Types.{
  Value, bool_value, int_value, enum_value, bitmask_value, Description, Property,
}
use Prim.Native.String.{String}

-- CSI_CAMERA_PID_BASE
abbrev pub pid_base : ℕ
pid_base = 10094848

-- An entry of the table with its value as the default: the two are written out alike there, but for
-- the flips.
abbrev entry : ℕ → ℕ → String → ℤ → ℤ → Value → Value → Description
entry offset type name maximum step default value = record {
  id = pid_base + offset;
  type = type;
  name = name;
  minimum = pos 0;
  maximum = maximum;
  step = step;
  default_value = default;
  value = value;
}

-- The entries that `g_camera_property_descriptions` starts with
abbrev pub camera_property_descriptions : List Description
camera_property_descriptions =
    entry 1 2 "horization flip" (pos 1) (pos 1) (bool_value true) (bool_value false)
    ∷ entry 2 2 "vertically flip" (pos 1) (pos 1) (bool_value true) (bool_value false)
    ∷ entry 3 1 "rotate" (pos 270) (pos 90) (int_value (pos 0)) (int_value (pos 0))
    ∷ entry 17 3 "exposure mode" (pos 3) (pos 1) (enum_value (pos 0)) (enum_value (pos 0))
    ∷ entry 18 1 "exposure absolute" (pos 10000) (pos 1) (int_value (pos 1)) (int_value (pos 1))
    ∷ entry 50 8 "3A LOCK" (pos 4) (pos 2) (bitmask_value 1) (bitmask_value 1)
    ∷ entry 65 1 "red gain" (pos 2147483647) (pos 1) (int_value (pos 1)) (int_value (pos 1))
    ∷ entry 66 1 "green gain" (pos 2147483647) (pos 1) (int_value (pos 1)) (int_value (pos 1))
    ∷ entry 67 1 "blue gain" (pos 2147483647) (pos 1) (int_value (pos 1)) (int_value (pos 1))
    ∷ []

-- The rest of the array, which is zero.
abbrev pub no_description : Description
no_description = record {
  id = 0;
  type = 0;
  name = "";
  minimum = pos 0;
  maximum = pos 0;
  step = pos 0;
  default_value = int_value (pos 0);
  value = int_value (pos 0);
}

-- PROPERTY_NUM
abbrev pub property_num : ℕ
property_num = 100

abbrev pub g_camera_property_descriptions : List Description
g_camera_property_descriptions =
    camera_property_descriptions ++ replicate (property_num - 9) no_description

-- The search loop: the place of an id, PROPERTY_NUM where it is not found.
unfoldable pub index_of : ℕ → List Description → ℕ
index_of id [] = 0
index_of id (d ∷ table) = if id == d.id then 0 else suc (index_of id table)

-- CSI_CAMERA_FLAG_NEXT_CTRL, the top bit of the 32-bit id
abbrev pub flag_next_ctrl : ℕ
flag_next_ctrl = 2 ^ 31

-- The entry at a place behind the checks that it is there and that its id is not 0.
abbrev pub known_at : ℕ → List Description → Option Description
known_at i table = elim (get_elem? table i) [
  | none ↦ none
  | some found ↦ if found.id == 0 then none else some found
]

-- With the flag it is the entry behind the one found. On failure `desc` keeps its id without flag.
unfoldable pub csi_camera_query_property :
    List Description → Option Description → ℤ × Option Description
csi_camera_query_property table none = (minus_one, none)
csi_camera_query_property table (some desc) =
    let flagged = leb flag_next_ctrl desc.id in
    let id = desc.id % flag_next_ctrl in
    let at = index_of id table in
    let i : ℕ =
      if flagged && not (elim (get_elem? table at) [ none ↦ true | some _ ↦ false ])
      then suc at
      else at in
    elim (known_at i table) [
      | none ↦ (minus_one, some (record desc { id = id }))
      | some found ↦ (pos 0, some found)
    ]

-- The loop of `csi_camera_get_property`. `id` is the variable of that name, which is never set: the
-- check reads the entry at that place, and `none` is a read outside the table.
unfoldable pub get_properties : ℕ → List Description → List Property → Option (ℤ × List Property)
get_properties id table [] = some (pos 0, [])
get_properties id table (p ∷ ps) =
    let rest = get_properties id table ps in
    elim (get_elem? table (index_of p.id table)) [
      | none ↦ some (minus_one, p ∷ ps)
      | some found ↦ elim (get_elem? table id) [
        | none ↦ none
        | some checked ↦ if checked.id == 0 then some (minus_one, p ∷ ps) else elim rest [
          | none ↦ none
          | some (ret, ps') ↦ some (ret, record p { type = found.type; value = found.value } ∷ ps')
        ]
      ]
    ]

-- Each turn of the loop of `csi_camera_set_property`: the entry gets the value when OpenCV took it.
-- `idx` is that of the handle; 4 is the fake camera.
module _ {World : Type 0} (camera_property_set_opencv : Property → World → ℤ × World)
    (idx : ℕ) where
  unfoldable pub set_properties :
      List Property → List Description → World → ℤ × List Description × World
  set_properties [] table w = (pos 0, table, w)
  set_properties (p ∷ ps) table w =
      let j = index_of p.id table in
      let (ret, w') = camera_property_set_opencv p w in
      let w₁ : World = if idx == 4 then w else w' in
      elim (known_at j table) [
        | none ↦ (minus_one, table, w)
        | some found ↦
            if not (idx == 4) && not (is_zero ret)
            then (minus_one, table, w')
            else set_properties ps (set table j (record found { value = p.value })) w₁
      ]
