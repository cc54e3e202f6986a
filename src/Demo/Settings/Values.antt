-- ===== src/Demo/Settings/Values.antt =====
-- The test of two values in `get_property_diff_count` (camera_demo3_srcs/dialog_camera_property_list.c): it
-- takes a value to be itself, and no other value to be it.
use csi_hal.Prelude.{ℤ, pos, negsuc, eq_int, ◌≡◌, refl, ap, true, false, arith}
use csi_hal.Simulator.Types.{Value, bool_value, int_value, enum_value, bitmask_value}
use csi_hal.Demo.Settings.{eq_value}

pub eq_value_self : (v : Value) → eq_value v v ≡ true
eq_value_self (bool_value true) = refl
eq_value_self (bool_value false) = refl
eq_value_self (int_value (pos n)) = ground arith
eq_value_self (int_value (negsuc n)) = ground arith
eq_value_self (enum_value (pos n)) = ground arith
eq_value_self (enum_value (negsuc n)) = ground arith
eq_value_self (bitmask_value n) = ground arith

eq_int_sound : (a b : ℤ) → eq_int a b ≡ true → a ≡ b
eq_int_sound (pos n) (pos m) e = ap pos (ground arith)
eq_int_sound (negsuc n) (negsuc m) e = ap negsuc (ground arith)
eq_int_sound (pos n) (negsuc m) e = cc
eq_int_sound (negsuc n) (pos m) e = cc

pub eq_value_sound : (v old : Value) → eq_value v old ≡ true → v ≡ old
eq_value_sound (bool_value true) (bool_value true) e = refl
eq_value_sound (bool_value false) (bool_value false) e = refl
eq_value_sound (bool_value true) (bool_value false) e = cc
eq_value_sound (bool_value false) (bool_value true) e = cc
eq_value_sound (bool_value a) (int_value b) e = cc
eq_value_sound (bool_value a) (enum_value b) e = cc
eq_value_sound (bool_value a) (bitmask_value b) e = cc
eq_value_sound (int_value a) (int_value b) e = ap int_value (eq_int_sound a b e)
eq_value_sound (int_value a) (bool_value b) e = cc
eq_value_sound (int_value a) (enum_value b) e = cc
eq_value_sound (int_value a) (bitmask_value b) e = cc
eq_value_sound (enum_value a) (enum_value b) e = ap enum_value (eq_int_sound a b e)
eq_value_sound (enum_value a) (bool_value b) e = cc
eq_value_sound (enum_value a) (int_value b) e = cc
eq_value_sound (enum_value a) (bitmask_value b) e = cc
eq_value_sound (bitmask_value a) (bitmask_value b) e = ap bitmask_value (ground arith)
eq_value_sound (bitmask_value a) (bool_value b) e = cc
eq_value_sound (bitmask_value a) (int_value b) e = cc
eq_value_sound (bitmask_value a) (enum_value b) e = cc
