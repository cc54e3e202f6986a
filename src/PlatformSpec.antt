-- ===== src/PlatformSpec.antt =====
-- What the simulator says that it supports, src/platform/simulator/csi_camera_platform_spec.c, and
-- what the application does, src/lib_camera/camera_app_spec.c: tables of codes by an id. A NULL table
-- is `none`.
pub mod Named
use csi_hal.Prelude.{ℕ, Option, none, some, List, [], ◌∷◌, if◌then◌else◌, ◌==◌}
use csi_hal.CameraString.{pid_exposure_mode, pid_3a_lock}

abbrev pub camera_spec_camera_exposure_modes : List ℕ
camera_spec_camera_exposure_modes = 0 ∷ 1 ∷ 2 ∷ 3 ∷ []

abbrev pub camera_spec_chn_pix_fmt : List ℕ
camera_spec_chn_pix_fmt = 0 ∷ 1 ∷ 2 ∷ []

abbrev pub camera_spec_chn_img_type : List ℕ
camera_spec_chn_img_type = 0 ∷ 1 ∷ []

abbrev pub camera_spec_camera_event_type : List ℕ
camera_spec_camera_event_type = 1 ∷ 2 ∷ 4 ∷ 8 ∷ []

abbrev pub camera_spec_channel_event_type : List ℕ
camera_spec_channel_event_type = 1 ∷ 2 ∷ 4 ∷ []

-- The ids are those of `camera_sepc_enums_e`.
unfoldable pub camera_spec_get_enum_array : ℕ → Option (List ℕ)
camera_spec_get_enum_array property_id =
    if property_id == pid_exposure_mode
    then some camera_spec_camera_exposure_modes
    else if property_id == 2
    then some camera_spec_camera_event_type
    else if property_id == 0
    then some camera_spec_chn_pix_fmt
    else if property_id == 1
    then some camera_spec_chn_img_type
    else if property_id == 3
    then some camera_spec_channel_event_type
    else none

abbrev pub camera_spec_3a_lock : List ℕ
camera_spec_3a_lock = 1 ∷ 2 ∷ 4 ∷ []

abbrev pub channel_spec_support_capture_type : List ℕ
channel_spec_support_capture_type = 1 ∷ 2 ∷ []

abbrev pub channel_spec_support_meta_type : List ℕ
channel_spec_support_meta_type = 1 ∷ 2 ∷ 4 ∷ 8 ∷ 16 ∷ []

-- The ids are those of `camera_sepc_bitmasks_e`.
unfoldable pub camera_spec_get_bitmask_array : ℕ → Option (List ℕ)
camera_spec_get_bitmask_array property_id =
    if property_id == pid_3a_lock
    then some camera_spec_3a_lock
    else if property_id == 0
    then some channel_spec_support_capture_type
    else if property_id == 1
    then some channel_spec_support_meta_type
    else none

abbrev pub camera_app_support_camera_event_action : List ℕ
camera_app_support_camera_event_action = 1 ∷ 2 ∷ []

abbrev pub camera_app_support_channel_event_action : List ℕ
camera_app_support_channel_event_action = 1 ∷ 2 ∷ 4 ∷ []

-- The ids are those of `camera_app_bitmask_id_e`.
unfoldable pub camera_app_get_bitmask_array : ℕ → Option (List ℕ)
camera_app_get_bitmask_array bitmask_id =
    if bitmask_id == 0
    then some camera_app_support_camera_event_action
    else if bitmask_id == 1
    then some camera_app_support_channel_event_action
    else none
