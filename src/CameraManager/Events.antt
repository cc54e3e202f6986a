-- ===== src/CameraManager/Events.antt =====
-- Events in camera_manager.c: the subscriptions that `camera_subscribe_event` asks the HAL for, the
-- callbacks, and the thread that waits for events.
use csi_hal.Prelude.{
  ℕ, suc, ◌+◌, ℤ, pos, negsuc, is_zero, eq_int, Bool, false, not, ◌&&◌, Option, none, some, List,
  [], ◌∷◌, if◌then◌else◌, leb,
}
use csi_hal.Hal.{Hal, ChannelCfg, Subscription, Event, opened, is_status}
use csi_hal.CameraManager.State.{EventAction, Cams, Sys, check_session, check_state, Result}
use csi_hal.CameraManager.Device.{idle_states}

-- CSI_CAMERA_EVENT_TYPE_CAMERA and CSI_CAMERA_EVENT_TYPE_CHANNEL0
abbrev pub type_camera : ℕ
type_camera = 0

abbrev pub type_channel0 : ℕ
type_channel0 = 1

module _ (hal : Hal) where
  -- One turn of either inner loop: the code of the call is only logged.
  unfoldable pub request : ℕ → ℕ → EventAction → hal.World → hal.World
  request event_handle type a h =
      let subscribe : Subscription = record { type = pos type; id = a.event } in
      if not a.supported
      then h
      else if a.subscribed
      then (hal.csi_camera_subscribe_event event_handle subscribe h).1
      else (hal.csi_camera_unsubscribe_event event_handle subscribe h).1

  unfoldable pub request_all : ℕ → ℕ → List EventAction → hal.World → hal.World
  request_all event_handle type [] h = h
  request_all event_handle type (a ∷ table) h =
      request_all event_handle type table (request event_handle type a h)

  -- The loop over the channels from `chn` on, with their tables.
  unfoldable pub request_channels :
      ℕ → ℕ → List ChannelCfg → List (List EventAction) → hal.World → hal.World
  request_channels event_handle chn [] tables h = h
  request_channels event_handle chn (cfg ∷ cfgs) [] h = h
  request_channels event_handle chn (cfg ∷ cfgs) (table ∷ tables) h =
      request_channels event_handle (suc chn) cfgs tables (
        if is_status cfg.status opened
        then request_all event_handle (type_channel0 + chn) table h
        else h)

  unfoldable pub camera_subscribe_event : Option Cams → Sys hal.World → Result hal.World
  camera_subscribe_event session w = check_session session w λ c. check_state c idle_states w (
      let h = request_all c.event_handle type_camera c.camera_event_action w.hal in
      let h' = request_channels c.event_handle 0 c.chn_cfg c.channel_event_action h in
      (pos 0, some c, record w { hal = h' }))

  unfoldable pub camera_register_event_action :
      Option Cams → Option ℕ → Option ℕ → Sys hal.World → Result hal.World
  camera_register_event_action session camera_fun channel_fun w = check_session session w λ c. (
    pos 0,
    some (record c { camera_action_fun = camera_fun; channel_action_fun = channel_fun }),
    w,
  )

-- CSI_CAMERA_EVENT_TYPE_CHANNEL0 to CSI_CAMERA_EVENT_TYPE_CHANNEL7
abbrev pub is_channel : ℤ → Bool
is_channel (pos n) = leb 1 n && leb n 8
is_channel (negsuc n) = false

abbrev pub call : Option ℕ → Event → Option (ℕ × Event)
call none event = none
call (some f) event = some (f, event)

-- A turn of `camera_event_action_thread`: the callback that runs, with the event.
unfoldable pub dispatch : Cams → Event → Option (ℕ × Event)
dispatch c event =
    if eq_int event.type (pos type_camera)
    then call c.camera_action_fun event
    else if is_channel event.type
    then call c.channel_action_fun event
    else none

-- What the thread sees at each turn: the value of `camera_thread_flag`, then the code and the event
-- of `csi_camera_get_event`, which waits for ever.
pub record Turn : Type 0 where
  pub flag : Bool
  pub ret : ℤ
  pub event : Event

abbrev pub prepend : Option (ℕ × Event) → List (ℕ × Event) → List (ℕ × Event)
prepend none l = l
prepend (some e) l = e ∷ l

-- The callbacks of the thread over its turns. It ends when it sees the flag down.
unfoldable pub event_thread : Cams → List Turn → List (ℕ × Event)
unfolding dispatch
event_thread c [] = []
event_thread c (t ∷ ts) =
    let rest = event_thread c ts in
    if not t.flag
    then []
    else if not (is_zero t.ret)
    then rest
    else prepend (dispatch c t.event) rest
