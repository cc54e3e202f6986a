-- ===== src/CameraManager/Lifecycle.antt =====
-- The states of a session: the calls of camera_manager.c as one type, and the state machine that
-- they implement, whatever the HAL and the threads answer.
pub mod Moves
pub mod Invariant
pub mod Total
use csi_hal.Prelude.{
  ℕ, ℤ, is_zero, ◌≡◌, ◌⊎◌, inl, inr, refl, Bool, true, false, Option, none, some, List, arith,
  get_elem?, Bool-cases, Option-cases, not, leb, to_u32, ◌||◌,
}
use csi_hal.Hal.{Hal, ChannelCfg, Infos}
use csi_hal.CameraManager.State.{
  CameraState, closed, opened, mode_set, running, Cams, Sys, Threads, accepts, Result,
}
use csi_hal.CameraManager.Device.{
  idle_states, open_states, camera_query_list, camera_get_caps, open_device, camera_open,
  camera_close, camera_get_modes, camera_set_mode, camera_query_property, camera_set_property,
}
use csi_hal.CameraManager.Actions.{init_events}
use csi_hal.CameraManager.Channel.{
  query_list, camera_channel_query_list, open_channel, open_listed, camera_channel_open,
  close_channel, camera_channel_close, camera_channel_start, camera_channel_stop,
}
use csi_hal.CameraManager.Events.{camera_subscribe_event, camera_register_event_action}

-- A call on a session.
pub data Call (Property Description : Type 0) : Type 0 where
  list caps close get_modes query_channels subscribe : Call Property Description
  open_camera set_mode : ℤ → Call Property Description
  query_property : Description → Call Property Description
  set_property : List Property → Call Property Description
  open_channel_cfg : ChannelCfg → Call Property Description
  close_channel_id start stop : ℕ → Call Property Description
  register : Option ℕ → Option ℕ → Call Property Description

abbrev pub is_idle : CameraState → Bool
is_idle opened = true
is_idle mode_set = true
is_idle _ = false

abbrev pub is_open : CameraState → Bool
is_open closed = false
is_open _ = true

abbrev pub is_running : CameraState → Bool
is_running running = true
is_running _ = false

-- What a call that returns `ret` may make of the state `s`.
module _ (s : CameraState) (ret : ℤ) (t : CameraState) where
  -- Success has a condition on the state before and fixes the state after; failure changes nothing.
  abbrev pub OnSuccess : Bool → CameraState → Type 0
  OnSuccess before after =
      (is_zero ret ≡ true → (before ≡ true) × (t ≡ after)) × (is_zero ret ≡ false → t ≡ s)

  abbrev pub Keeps : Bool → Type 0
  Keeps before = (is_zero ret ≡ true → before ≡ true) × (t ≡ s)

  -- A failure of the event handle leaves the session opened.
  abbrev pub Opens : Type 0
  Opens = (is_zero ret ≡ true → t ≡ opened) × (is_zero ret ≡ false → (t ≡ s) ⊎ (t ≡ opened))

abbrev pub Allowed : {P D : Type 0} → Call P D → CameraState → ℤ → CameraState → Type 0
Allowed list s ret t = Keeps s ret t true
Allowed caps s ret t = Keeps s ret t true
Allowed close s ret t = OnSuccess s ret t true closed
Allowed get_modes s ret t = Keeps s ret t (is_idle s)
Allowed query_channels s ret t = Keeps s ret t (is_open s)
Allowed subscribe s ret t = Keeps s ret t (is_idle s)
Allowed (open_camera _) s ret t = Opens s ret t
Allowed (set_mode _) s ret t = OnSuccess s ret t (is_idle s) mode_set
Allowed (query_property _) s ret t = Keeps s ret t (is_idle s)
Allowed (set_property _) s ret t = Keeps s ret t (is_open s)
Allowed (open_channel_cfg _) s ret t = Keeps s ret t (is_open s)
Allowed (close_channel_id _) s ret t = Keeps s ret t (is_open s)
Allowed (start _) s ret t = OnSuccess s ret t (is_idle s) running
Allowed (stop _) s ret t = OnSuccess s ret t (is_running s) opened
Allowed (register _ _) s ret t = Keeps s ret t true

-- The session after a result: there is one, and it stands in the relation.
abbrev pub Leaves : {W : Type 0} → (ℤ → Cams → Type 0) → Result W → Type 0
Leaves P (ret, none, w) = ⊥
Leaves P (ret, some c, w) = P ret c

module _ (hal : Hal) (threads : Threads hal.World) where
  abbrev pub K : Type 0
  K = Call hal.Property hal.Description

  -- `none` where the code accesses memory that is not there.
  unfoldable pub exec : K → Option Cams → Sys hal.World → Option (Result hal.World)
  exec list none w = none
  exec list (some c) w = let (ret, c', w') = camera_query_list hal c w in some (ret, some c', w')
  exec caps s w = some (camera_get_caps hal s w)
  exec close s w = some (camera_close hal s w)
  exec get_modes s w = some (camera_get_modes hal s w)
  exec query_channels s w = some (camera_channel_query_list hal threads s w)
  exec subscribe s w = some (camera_subscribe_event hal s w)
  exec (open_camera cam_id) s w = camera_open hal s cam_id w
  exec (set_mode mode_id) s w = some (camera_set_mode hal s mode_id w)
  exec (query_property d) s w =
      let (_, ret, s', w') = camera_query_property hal s d w in some (ret, s', w')
  exec (set_property ps) s w = some (camera_set_property hal s ps w)
  exec (open_channel_cfg cfg) s w = camera_channel_open hal threads s cfg w
  exec (close_channel_id chn_id) s w = camera_channel_close hal threads s chn_id w
  exec (start chn_id) s w = some (camera_channel_start hal threads s chn_id w)
  exec (stop chn_id) s w = some (camera_channel_stop hal threads s chn_id w)
  exec (register f g) s w = some (camera_register_event_action hal s f g w)

  -- The state of the session after a call stands in `Allowed` to the state before.
  abbrev pub Moves : K → Cams → Result hal.World → Type 0
  Moves k c r = Leaves (λ ret c'. Allowed k c.state ret c'.state) r
