-- ===== src/CameraManager/Lifecycle/Moves.antt =====
-- The operations of camera_manager.c move the session's state as `Lifecycle.Allowed` says.
use csi_hal.Prelude.{
  ℕ, ℤ, ◌≡◌, inl, inr, true, Option, none, some, List, arith, get_elem?, Bool-cases, Option-cases,
  to_u32,
}
use mathlib.Core.Path.{subst}
use csi_hal.Hal.{Hal, ChannelCfg, CameraInfo}
use csi_hal.CameraManager.State.{Cams, Sys, Threads, Result, accepts}
use csi_hal.CameraManager.Device.{
  camera_query_list, camera_get_caps, open_device, camera_open, open_states, camera_close,
  camera_get_modes, camera_set_mode, camera_query_property, camera_set_property,
}
use csi_hal.CameraManager.Actions.{init_events}
use csi_hal.CameraManager.Channel.{
  listed, query_list, camera_channel_query_list, open_channel, open_listed, camera_channel_open,
  close_channel, camera_channel_close, camera_channel_start, camera_channel_stop,
}
use csi_hal.CameraManager.Events.{camera_subscribe_event, camera_register_event_action}
use csi_hal.CameraManager.Lifecycle.{
  list, caps, close, get_modes, query_channels, subscribe, open_camera, set_mode, query_property,
  set_property, open_channel_cfg, close_channel_id, start, stop, register, Allowed, Leaves, Moves,
  K, exec,
}

module _ (hal : Hal) (threads : Threads hal.World) (c : Cams) (w : Sys hal.World) where
  list-Moves :
      let (ret, c', w') = camera_query_list hal c w in Moves hal threads list c (ret, some c', w')
  unfolding camera_query_list
  list-Moves = ground arith

  close-Moves : Moves hal threads close c (camera_close hal (some c) w)
  unfolding camera_close
  close-Moves = ground arith

  get_modes-Moves : Moves hal threads get_modes c (camera_get_modes hal (some c) w)
  unfolding camera_get_modes
  get_modes-Moves = ground arith

  query_channels-Moves :
      Moves hal threads query_channels c (camera_channel_query_list hal threads (some c) w)
  unfolding camera_channel_query_list query_list
  query_channels-Moves = ground arith

  subscribe-Moves : Moves hal threads subscribe c (camera_subscribe_event hal (some c) w)
  unfolding camera_subscribe_event
  subscribe-Moves = ground arith

  set_mode-Moves : (id : ℤ) → Moves hal threads (set_mode id) c (camera_set_mode hal (some c) id w)
  unfolding camera_set_mode
  set_mode-Moves id = ground arith

  set_property-Moves :
      (ps : List hal.Property)
      → Moves hal threads (set_property ps) c (camera_set_property hal (some c) ps w)
  unfolding camera_set_property
  set_property-Moves ps = ground arith

  start-Moves :
      (id : ℕ) → Moves hal threads (start id) c (camera_channel_start hal threads (some c) id w)
  unfolding camera_channel_start
  start-Moves id = ground arith

  stop-Moves :
      (id : ℕ) → Moves hal threads (stop id) c (camera_channel_stop hal threads (some c) id w)
  unfolding camera_channel_stop
  stop-Moves id = ground arith

  caps-Moves : Moves hal threads caps c (camera_get_caps hal (some c) w)
  unfolding camera_get_caps
  caps-Moves = ground arith

  register-Moves :
      (f g : Option ℕ)
      → Moves hal threads (register f g) c (camera_register_event_action hal (some c) f g w)
  unfolding camera_register_event_action
  register-Moves f g = ground arith

  query_property-Moves :
      (d : hal.Description)
      → let (_, ret, s, w') = camera_query_property hal (some c) d w in
        Moves hal threads (query_property d) c (ret, s, w')
  unfolding camera_query_property
  query_property-Moves d = ground arith

  open_device-Moves :
      (id : ℤ) (info : CameraInfo)
      → Moves hal threads (open_camera id) c (open_device hal c id info w)
  unfolding open_device init_events
  open_device-Moves id info = ground arith

  -- An option holds no result, or one that stands in the relation.
  abbrev MovesIf : K hal threads → Option (Result hal.World) → Type 0
  MovesIf k none = Unit {0}
  MovesIf k (some r) = Moves hal threads k c r

  open_camera-Moves : (id : ℤ) → MovesIf (open_camera id) (camera_open hal (some c) id w)
  unfolding camera_open
  open_camera-Moves id = elim (Option-cases (get_elem? c.camera_infos.info (to_u32 id))) [
    | inl e ↦ rw (e, camera_open) (ground arith)
    | inr (info, e) ↦ rw (e, camera_open) (ground (arith, open_device-Moves id info))
  ]

  close_channel-Moves :
      (id : ℕ) → MovesIf (close_channel_id id) (camera_channel_close hal threads (some c) id w)
  unfolding camera_channel_close close_channel
  close_channel-Moves id = elim (Option-cases (get_elem? c.chn_cfg id)) [
    | inl e ↦ rw (e, camera_channel_close) (ground arith)
    | inr (cfg, e) ↦ rw (e, camera_channel_close) (ground arith)
  ]

open_channel-Moves :
    (hal : Hal) (threads : Threads hal.World) (c : Cams) (cfg old : ChannelCfg) (w : Sys hal.World)
    → (accepts c open_states ≡ true)
    → Moves hal threads (open_channel_cfg cfg) c (open_channel hal threads c cfg old w)
unfolding open_channel
open_channel-Moves hal threads c cfg old w h = ground arith

module _ (hal : Hal) (threads : Threads hal.World) (c : Cams) (w : Sys hal.World) where
  listed-state : (listed hal threads c w).0.state ≡ c.state
  unfolding listed query_list
  listed-state = ground arith

  open_listed-Moves :
      (cfg : ChannelCfg)
      → accepts c open_states ≡ true
      → MovesIf hal threads c w (open_channel_cfg cfg) (open_listed hal threads c cfg w)
  unfolding open_listed
  open_listed-Moves cfg ok = elim (Option-cases (get_elem? c.chn_cfg (to_u32 cfg.chn_id))) [
    | inl e ↦ rw (e, open_listed) tt
    | inr (old, e) ↦ rw (e, open_listed) (open_channel-Moves hal threads c cfg old w ok)
  ]

-- A result that is allowed from one session is allowed from any other in the same state.
MovesIf-state :
    (hal : Hal) (threads : Threads hal.World) (k : K hal threads) (b c : Cams) (w : Sys hal.World)
    (r : Option (Result hal.World))
    → b.state ≡ c.state
    → MovesIf hal threads b w k r
    → MovesIf hal threads c w k r
MovesIf-state hal threads k b c w none e m = tt
MovesIf-state hal threads k b c w (some r) e m =
    subst
      (λ s. Leaves (λ ret c'. Allowed {P = hal.Property} {D = hal.Description} k s ret c'.state) r)
      e m

module _ (hal : Hal) (threads : Threads hal.World) where
  exec-MovesIf :
      (k : K hal threads) (c : Cams) (w : Sys hal.World)
      → MovesIf hal threads c w k (exec hal threads k (some c) w)
  unfolding exec camera_channel_open
  exec-MovesIf list c w = list-Moves hal threads c w
  exec-MovesIf caps c w = caps-Moves hal threads c w
  exec-MovesIf close c w = close-Moves hal threads c w
  exec-MovesIf get_modes c w = get_modes-Moves hal threads c w
  exec-MovesIf query_channels c w = query_channels-Moves hal threads c w
  exec-MovesIf subscribe c w = subscribe-Moves hal threads c w
  exec-MovesIf (open_camera id) c w = open_camera-Moves hal threads c w id
  exec-MovesIf (set_mode id) c w = set_mode-Moves hal threads c w id
  exec-MovesIf (query_property d) c w = query_property-Moves hal threads c w d
  exec-MovesIf (set_property ps) c w = set_property-Moves hal threads c w ps
  exec-MovesIf (open_channel_cfg cfg) c w = elim (Bool-cases (accepts c open_states)) [
    | inl ok ↦
        let (b, w') = listed hal threads c w in
        let same : b.state ≡ c.state = listed-state hal threads c w in
        let ok' : accepts b open_states ≡ true = ground arith in
        rw (ok, camera_channel_open)
          (MovesIf-state hal threads (open_channel_cfg cfg) b c w' _ same
            (open_listed-Moves hal threads b w' cfg ok'))
    | inr out ↦ rw (out, camera_channel_open) (ground arith)
  ]
  exec-MovesIf (close_channel_id id) c w = close_channel-Moves hal threads c w id
  exec-MovesIf (start id) c w = start-Moves hal threads c w id
  exec-MovesIf (stop id) c w = stop-Moves hal threads c w id
  exec-MovesIf (register f g) c w = register-Moves hal threads c w f g

  -- Whatever call a client makes on a session that is there, and whatever the HAL and the threads
  -- answer: if it returns, the session is still there and its state has moved as the state machine
  -- of `Lifecycle.Allowed` says. So a mode is set, and a channel started, only from the states
  -- opened and mode_set; a channel is stopped only from running, to opened; a close that succeeds
  -- leaves the session closed; and a call that fails keeps the state, but for `camera_open`, which
  -- may leave it opened.
  pub exec-Allowed :
      (k : K hal threads) (c : Cams) (w : Sys hal.World) {r : Result hal.World}
      → exec hal threads k (some c) w ≡ some r
      → Leaves (λ ret c'. Allowed k c.state ret c'.state) r
  exec-Allowed k c w e = subst (MovesIf hal threads c w k) e (exec-MovesIf k c w)
