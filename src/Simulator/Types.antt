-- ===== src/Simulator/Types.antt =====
-- The property structs of include/hal/csi_camera.h as the simulator uses them.
use csi_hal.Prelude.{ℕ, ℤ, Bool}
use Prim.Native.String.{String}

-- `csi_camera_property_data_u` with the member that the property's type selects.
pub data Value : Type 0 where
  bool_value : Bool → Value
  int_value enum_value : ℤ → Value
  bitmask_value : ℕ → Value

-- `csi_camera_property_description_s`
pub record Description : Type 0 where
  pub id : ℕ
  pub type : ℕ
  pub name : String
  pub minimum : ℤ
  pub maximum : ℤ
  pub step : ℤ
  pub default_value : Value
  pub value : Value

-- `csi_camera_property_s`
pub record Property : Type 0 where
  pub id : ℕ
  pub type : ℕ
  pub value : Value
