-- ===== src/Demo/Settings/Tests.antt =====
-- The dialog of a camera's properties on the table that the simulator starts with.
use csi_hal.Prelude.{
  ℕ, ◌+◌, ℤ, pos, minus_one, ◌≡◌, refl, true, false, Option, none, some, List, [], ◌∷◌,
}
use csi_hal.Simulator.Types.{Value, bool_value, int_value, Description, Property}
use csi_hal.Simulator.Properties.{index_of, no_description, g_camera_property_descriptions}
use csi_hal.Simulator.Properties.Assign.{value_of}
use csi_hal.Demo.Settings.{
  pid_hflip, Choice, apply, select, DialogOutcome, closed, property_of, dialog_camera_property_list,
}

-- The fake camera does without OpenCV, which would take nothing here.
abbrev opencv : Property → ℕ → ℤ × ℕ
opencv p calls = (minus_one, calls + 1)

abbrev fake_camera : ℕ
fake_camera = 4

abbrev hflip : Description
hflip = record no_description {
  id = pid_hflip;
  type = 2;
  name = "horization flip";
  maximum = pos 1;
  step = pos 1;
  default_value = bool_value true;
  value = bool_value false;
}

-- Both flips and the rotation are edited; the first confirmation is refused.
abbrev choices : List Choice
choices =
    select 0 (bool_value true)
    ∷ select 2 (int_value (pos 90))
    ∷ apply false
    ∷ select 1 (bool_value true)
    ∷ apply true
    ∷ []

-- What was asked for, and the count of differences behind it.
abbrev flipped : DialogOutcome ℕ → (Option Value × Option Value × Option Value × Option Value)
flipped (closed ret table w) = (
  value_of pid_hflip table,
  value_of (pid_hflip + 1) table,
  value_of (pid_hflip + 2) table,
  value_of (pid_hflip + 64) table,
)
flipped _ = (none, none, none, none)

dialog_lem :
    (elim (dialog_camera_property_list opencv fake_camera
      (property_of no_description)
      10
      no_description
      g_camera_property_descriptions
      0
      choices) [ none ↦ none | some outcome ↦ some (flipped outcome) ])
    ≡ some (
      some (bool_value true),
      some (bool_value true),
      some (int_value (pos 90)),
      some (int_value (pos 1)),
    )
unfolding dialog_camera_property_list value_of index_of
dialog_lem = refl
