-- ===== src/Simulator/Tests.antt =====
-- The simulator's property table, and the theorems applied to it.
use csi_hal.Prelude.{ℕ, zero, suc, ℤ, pos, minus_one, ◌≡◌, refl, List, [], ◌∷◌, arith, drop}
use csi_hal.Simulator.Types.{int_value, Description, Property}
use csi_hal.Simulator.Properties.{
  camera_property_descriptions, g_camera_property_descriptions, no_description, set_properties,
}
use csi_hal.Simulator.Properties.Query.{walk, walk-drop}
use csi_hal.Simulator.Properties.Shipped.{table-Distinct, table-AllNamed}
use csi_hal.Simulator.Properties.Assign.{Assigns, set_properties-updated}

abbrev red_gain : Description
red_gain = record no_description {
  id = 10094913;
  type = 1;
  name = "red gain";
  maximum = pos 2147483647;
  step = pos 1;
  default_value = int_value (pos 1);
  value = int_value (pos 1);
}

walk-drop_example :
    walk 3 g_camera_property_descriptions red_gain ≡ drop 7 camera_property_descriptions
walk-drop_example =
    walk-drop 3 91 6 camera_property_descriptions red_gain table-Distinct table-AllNamed refl
      (omega arith)

-- OpenCV takes the first property only.
abbrev opencv : Property → ℕ → ℤ × ℕ
opencv p zero = (pos 0, 1)
opencv p (suc n) = (minus_one, suc n)

abbrev settings : List Property
settings =
    record { id = 10094913; type = 1; value = int_value (pos 5) }
    ∷ record { id = 10094914; type = 1; value = int_value (pos 6) }
    ∷ []

set_properties-updated_example :
    let (ret, table', w') = set_properties opencv 0 settings g_camera_property_descriptions 0 in
    (n : ℕ) × Assigns opencv 0 settings g_camera_property_descriptions table' ret n
set_properties-updated_example =
    set_properties-updated opencv 0 settings g_camera_property_descriptions 0

abbrev settings_asked : List Property
settings_asked = record { id = 10094913; type = 0; value = int_value (pos 0) } ∷ []

abbrev read : List Property
read = record { id = 10094913; type = 1; value = int_value (pos 1) } ∷ []
