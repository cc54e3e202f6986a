-- ===== src/PlatformSpec/Named.antt =====
-- Every code that the platform or the application lists has a name in src/common/camera_string.c.
use csi_hal.Prelude.{
  ℕ, ◌≡◌, refl, true, false, Bool, Option, none, some, List, [], ◌∷◌, arith, if◌then◌else◌, ◌==◌,
  inl, inr, Bool-cases,
}
use mathlib.Core.Path.{subst}
use Prim.Native.String.{String, compare}
use Prim.Native.Nat.{lt, eq, gt}
use csi_hal.CameraString.{
  pid_exposure_mode, pid_3a_lock, camera_string_enum_name, camera_string_bitmask_name,
  camera_string_capture_type, camera_string_pixel_format, camera_string_img_type,
  camera_string_meta_field, camera_string_camera_event_type, camera_string_channel_event_type,
  camera_string_camera_action, camera_string_channel_action,
}
use csi_hal.PlatformSpec.{
  camera_spec_get_enum_array, camera_spec_get_bitmask_array, camera_app_get_bitmask_array,
}

-- Whether a name is the one for codes without a name.
abbrev pub is_unknown : String → Bool
is_unknown name = elim (compare name "Unknown") [ lt ↦ false | eq ↦ true | gt ↦ false ]

-- Every code of a table has a name, by a given function.
abbrev pub AllNamed : (ℕ → String) → Option (List ℕ) → Type 0
AllNamed name none = Unit {0}
AllNamed name (some []) = Unit {0}
AllNamed name (some (code ∷ codes)) = (is_unknown (name code) ≡ false) × AllNamed name (some codes)

-- The function that names the codes of an enum table
abbrev pub enum_name : ℕ → ℕ → String
enum_name id =
    if id == 0
    then camera_string_pixel_format
    else if id == 1
    then camera_string_img_type
    else if id == 2
    then camera_string_camera_event_type
    else if id == 3
    then camera_string_channel_event_type
    else camera_string_enum_name id

-- and of a table of bits
abbrev pub bitmask_name : ℕ → ℕ → String
bitmask_name id =
    if id == 0
    then (λ type. camera_string_capture_type type true)
    else if id == 1
    then (λ type. camera_string_meta_field type true)
    else camera_string_bitmask_name id

abbrev pub action_name : ℕ → ℕ → String
action_name id = if id == 0 then camera_string_camera_action else camera_string_channel_action

-- A table by a chain of tests, one id at a time: at the id, and where it is another.
at_id : (P : ℕ → Type 0) (id k : ℕ) → P k → ((id == k) ≡ false → P id) → P id
at_id P id k here other = elim (Bool-cases (id == k)) [
  | inl same ↦ let e : k ≡ id = ground arith in subst P e here
  | inr differs ↦ other differs
]

enum-AllNamed : (id : ℕ) → AllNamed (enum_name id) (camera_spec_get_enum_array id)
unfolding camera_spec_get_enum_array
enum-AllNamed id =
    let P : ℕ → Type 0 = λ i. AllNamed (enum_name i) (camera_spec_get_enum_array i) in
    at_id P id pid_exposure_mode (refl, (refl, (refl, (refl, tt))))
      λ a.
        at_id P id 2 (refl, (refl, (refl, (refl, tt))))
          λ b.
            at_id P id 0 (refl, (refl, (refl, tt)))
              λ c.
                at_id P id 1 (refl, (refl, tt))
                  λ d.
                    at_id P id 3 (refl, (refl, (refl, tt)))
                      λ e. rw (a, b, c, d, e, camera_spec_get_enum_array) tt

bitmask-AllNamed : (id : ℕ) → AllNamed (bitmask_name id) (camera_spec_get_bitmask_array id)
unfolding camera_spec_get_bitmask_array
bitmask-AllNamed id =
    let P : ℕ → Type 0 = λ i. AllNamed (bitmask_name i) (camera_spec_get_bitmask_array i) in
    at_id P id pid_3a_lock (refl, (refl, (refl, tt)))
      λ a.
        at_id P id 0 (refl, (refl, tt))
          λ b.
            at_id P id 1 (refl, (refl, (refl, (refl, (refl, tt)))))
              λ c. rw (a, b, c, camera_spec_get_bitmask_array) tt

action-AllNamed : (id : ℕ) → AllNamed (action_name id) (camera_app_get_bitmask_array id)
unfolding camera_app_get_bitmask_array
action-AllNamed id =
    let P : ℕ → Type 0 = λ i. AllNamed (action_name i) (camera_app_get_bitmask_array i) in
    at_id P id 0 (refl, (refl, tt))
      λ a. at_id P id 1 (refl, (refl, (refl, tt))) λ b. rw (a, b, camera_app_get_bitmask_array) tt

-- For every id, the codes that `camera_spec_get_enum_array`, `camera_spec_get_bitmask_array` and
-- `camera_app_get_bitmask_array` list for it all have names in the functions for their kind.
pub spec-AllNamed :
    (id : ℕ)
    → AllNamed (enum_name id) (camera_spec_get_enum_array id)
      × AllNamed (bitmask_name id) (camera_spec_get_bitmask_array id)
      × AllNamed (action_name id) (camera_app_get_bitmask_array id)
spec-AllNamed id = (enum-AllNamed id, bitmask-AllNamed id, action-AllNamed id)
