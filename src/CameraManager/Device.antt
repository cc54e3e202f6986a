-- ===== src/CameraManager/Device.antt =====
-- The operations of camera_manager.c on the device: the session itself, the list of cameras, opening
-- (its event tables are in `Actions`), closing, modes and properties.
use csi_hal.Prelude.{
  ℕ, ℤ, pos, negsuc, minus_one, is_zero, to_u32, Bool, true, false, not, ◌||◌, Option, none, some,
  List, if◌then◌else◌, leb, get_elem?,
}
use Prim.Native.Nat.{bit_or}
use csi_hal.Hal.{Hal, CameraInfo, ModeCfg}
use csi_hal.CameraManager.State.{
  opened, mode_set, running, state_code, Cams, Sys, camera_infos_ready, camera_modes_ready,
  get_info_status, set_info_status, camera_session_reset, check_session, accepts, check_state,
  eperm, Result,
}
use csi_hal.CameraManager.Actions.{init_events}

-- The `session` pointer's own address is what the first two take: `none` is a NULL address.
-- `allocated` says whether `malloc` gave memory; -ENOMEM is -12.
unfoldable pub camera_create_session : Option (Option Cams) → Bool → ℤ × Option (Option Cams)
camera_create_session none allocated = (eperm, none)
camera_create_session (some _) false = (negsuc 11, some none)
camera_create_session (some _) true = (pos 0, some (some camera_session_reset))

-- A NULL address is dereferenced: no result.
unfoldable pub camera_destory_session : Option (Option Cams) → Option (ℤ × Option Cams)
camera_destory_session none = none
camera_destory_session (some session) = some (pos 0, none)

-- CAMERA_STATE_OPENED | CAMERA_STATE_MODE_SET, and with CAMERA_STATE_RUNNING
abbrev pub idle_states : ℕ
idle_states = bit_or (state_code opened) (state_code mode_set)

abbrev pub open_states : ℕ
open_states = bit_or idle_states (state_code running)

module _ (hal : Hal) where
  -- The session is not checked. A failure is logged, and the flag that it clears is set again.
  unfoldable pub camera_query_list : Cams → Sys hal.World → ℤ × Cams × Sys hal.World
  camera_query_list c w =
      let (ret, infos, h) = hal.csi_camera_query_list c.camera_infos w.hal in
      let c₁ = record c { camera_infos = infos } in
      let c₂ : Cams = if is_zero ret then c₁ else set_info_status c₁ camera_infos_ready false in
      if get_info_status c camera_infos_ready
      then (pos 0, c, w)
      else (pos 0, set_info_status c₂ camera_infos_ready true, record w { hal = h })

  unfoldable pub camera_get_caps : Option Cams → Sys hal.World → Result hal.World
  camera_get_caps session w = check_session session w λ c. (pos 0, some c, w)

  -- After `csi_camera_open`: the session is updated before the event handle is asked for, and stays
  -- so when that fails.
  unfoldable pub open_device : Cams → ℤ → CameraInfo → Sys hal.World → Result hal.World
  open_device c cam_id info w =
      let (ret, handle, h) = hal.csi_camera_open info.device_name w.hal in
      let (ret', event_handle, h') = hal.csi_camera_create_event handle h in
      let c₁ = record c {
        camera_id = cam_id;
        camera_handle = handle;
        state = opened;
        event_handle = event_handle;
      } in
      if not (is_zero ret)
      then (minus_one, some c, record w { hal = h })
      else if not (is_zero ret')
      then (minus_one, some c₁, record w { hal = h' })
      else (
        pos 0,
        some (init_events hal.camera_spec_get_enum_array cam_id c₁),
        record w { hal = h' },
      )

  -- `camera_infos.count <= cam_id` compares as `unsigned int`. `none` is a read outside `info`.
  unfoldable pub camera_open : Option Cams → ℤ → Sys hal.World → Option (Result hal.World)
  unfolding open_device
  camera_open none cam_id w = some (eperm, none, w)
  camera_open (some c) cam_id w =
      if not (get_info_status c camera_infos_ready) || leb c.camera_infos.count (to_u32 cam_id)
      then some (minus_one, some c, w)
      else elim (get_elem? c.camera_infos.info (to_u32 cam_id)) [
        | none ↦ none
        | some info ↦ some (open_device c cam_id info w)
      ]

  -- The test `event_handle >= 0` of a pointer always holds.
  unfoldable pub camera_close : Option Cams → Sys hal.World → Result hal.World
  camera_close session w = check_session session w λ c.
      let (_, h) = hal.csi_camera_destory_event c.event_handle w.hal in
      let (ret, h') = hal.csi_camera_close c.camera_handle h in
      if not (is_zero ret)
      then (minus_one, some (record c { event_handle = 0 }), record w { hal = h' })
      else (pos 0, some camera_session_reset, record w { hal = h' })

  unfoldable pub camera_get_modes : Option Cams → Sys hal.World → Result hal.World
  camera_get_modes session w = check_session session w λ c. check_state c idle_states w (
      let (ret, modes, h) = hal.csi_camera_get_modes c.camera_handle c.camera_modes w.hal in
      let c₁ = record c { camera_modes = modes } in
      if get_info_status c camera_modes_ready
      then (pos 0, some c, w)
      else if not (is_zero ret)
      then (ret, some (set_info_status c₁ camera_modes_ready false), record w { hal = h })
      else (pos 0, some (set_info_status c₁ camera_modes_ready true), record w { hal = h }))

  unfoldable pub camera_set_mode : Option Cams → ℤ → Sys hal.World → Result hal.World
  camera_set_mode session mode_id w = check_session session w λ c. check_state c idle_states w (
      let cfg : ModeCfg = record { mode_id = mode_id } in
      let (ret, h) = hal.csi_camera_set_mode c.camera_handle cfg w.hal in
      if not (is_zero ret)
      then (ret, some c, record w { hal = h })
      else (pos 0, some (record c { state = mode_set }), record w { hal = h }))

  -- The description goes in and out through a pointer.
  unfoldable pub camera_query_property :
      Option Cams
      → hal.Description
      → Sys hal.World
      → hal.Description × ℤ × Option Cams × Sys hal.World
  camera_query_property none d w = (d, eperm, none, w)
  camera_query_property (some c) d w =
      let (ret, d', h) = hal.csi_camera_query_property c.camera_handle d w.hal in
      if accepts c idle_states
      then (d', ret, some c, record w { hal = h })
      else (d, eperm, some c, w)

  unfoldable pub camera_set_property :
      Option Cams → List hal.Property → Sys hal.World → Result hal.World
  camera_set_property session properties w = check_session session w λ c.
      check_state c open_states w (
        let (ret, h) = hal.csi_camera_set_property c.camera_handle properties w.hal in
        (ret, some c, record w { hal = h }))
