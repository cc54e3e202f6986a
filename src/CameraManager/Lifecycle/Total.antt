-- ===== src/CameraManager/Lifecycle/Total.antt =====
-- Every call of camera_manager.c on a valid session returns, and leaves it valid.
use csi_hal.Prelude.{
  ℕ, ◌<◌, ℤ, to_u32, inl, inr, Option, none, some, List, [], ◌∷◌, arith, Bool-cases, get_elem?-some,
}
use csi_hal.Hal.{Hal, ChannelCfg}
use csi_hal.CameraManager.State.{Cams, Sys, Threads, Result, accepts}
use csi_hal.CameraManager.Device.{
  open_states, camera_query_list, camera_get_caps, camera_close, camera_get_modes, camera_set_mode,
  camera_query_property, camera_set_property,
}
use csi_hal.CameraManager.Channel.{
  listed, camera_channel_open, close_channel, camera_channel_close, camera_channel_start,
  camera_channel_stop,
}
use csi_hal.CameraManager.Events.{camera_subscribe_event, camera_register_event_action}
use csi_hal.CameraManager.Lifecycle.{
  list, caps, close, get_modes, query_channels as query_channels_call, subscribe, open_camera,
  set_mode, query_property, set_property, open_channel_cfg, close_channel_id, start, stop, register,
  K, exec,
}
use csi_hal.CameraManager.Lifecycle.Invariant.{
  IsValid, Lists, IsProper, Valid, camera_session_reset-IsValid, listed-IsValid,
  query_channels-IsValid, open_listed-IsValid, camera_open-IsValid,
}

module _ (hal : Hal) (threads : Threads hal.World) where
  module _ (c : Cams) (w : Sys hal.World) (v : IsValid c) where
    query_camera_list-Valid :
        Lists hal → let (ret, c', w') = camera_query_list hal c w in Valid (some (ret, some c', w'))
    unfolding camera_query_list
    query_camera_list-Valid h = let longer = h c.camera_infos w.hal v.infos in ground arith

    close-Valid : Valid (some (camera_close hal (some c) w))
    unfolding camera_close
    close-Valid = ground (arith, camera_session_reset-IsValid)

    get_modes-Valid : Valid (some (camera_get_modes hal (some c) w))
    unfolding camera_get_modes
    get_modes-Valid = ground arith

    set_mode-Valid : (id : ℤ) → Valid (some (camera_set_mode hal (some c) id w))
    unfolding camera_set_mode
    set_mode-Valid id = ground arith

    start-Valid : (id : ℕ) → Valid (some (camera_channel_start hal threads (some c) id w))
    unfolding camera_channel_start
    start-Valid id = ground arith

    stop-Valid : (id : ℕ) → Valid (some (camera_channel_stop hal threads (some c) id w))
    unfolding camera_channel_stop
    stop-Valid id = ground arith

    close_channel-Valid : (id : ℕ) → id < 8 → Valid (camera_channel_close hal threads (some c) id w)
    unfolding camera_channel_close close_channel
    close_channel-Valid id h =
        let (cfg, e) = get_elem?-some c.chn_cfg id (omega arith) in
        rw (e, camera_channel_close) (ground arith)

    open_channel-Valid :
        (cfg : ChannelCfg)
        → to_u32 cfg.chn_id < 8
        → Valid (camera_channel_open hal threads (some c) cfg w)
    unfolding camera_channel_open
    open_channel-Valid cfg h =
        let (b, w') = listed hal threads c w in
        let opened_or_not =
          open_listed-IsValid hal threads b cfg w' (listed-IsValid hal threads c w v) h in
        elim (Bool-cases (accepts c open_states)) [
          | inl ok ↦ rw (ok, camera_channel_open) opened_or_not
          | inr out ↦ rw (out, camera_channel_open) v
        ]

    subscribe-Valid : Valid (some (camera_subscribe_event hal (some c) w))
    unfolding camera_subscribe_event
    subscribe-Valid = ground arith

    set_property-Valid :
        (ps : List hal.Property) → Valid (some (camera_set_property hal (some c) ps w))
    unfolding camera_set_property
    set_property-Valid ps = ground arith

    query_property-Valid :
        (d : hal.Description)
        → let (_, ret, s, w') = camera_query_property hal (some c) d w in Valid (some (ret, s, w'))
    unfolding camera_query_property
    query_property-Valid d = ground arith

  -- With a HAL whose list of cameras is as long as it says, every call on a valid session returns,
  -- given that it names one of the eight channels if it names one, and leaves the session valid.
  pub exec-IsValid :
      (k : K hal threads) (c : Cams) (w : Sys hal.World)
      → Lists hal
      → IsValid c
      → IsProper k
      → Valid (exec hal threads k (some c) w)
  unfolding exec
  exec-IsValid list c w h v p = query_camera_list-Valid c w v h
  exec-IsValid caps c w h v p = unfold camera_get_caps in v
  exec-IsValid close c w h v p = close-Valid c w v
  exec-IsValid get_modes c w h v p = get_modes-Valid c w v
  exec-IsValid query_channels_call c w h v p = query_channels-IsValid hal threads c w v
  exec-IsValid subscribe c w h v p = subscribe-Valid c w v
  exec-IsValid (open_camera id) c w h v p = camera_open-IsValid hal threads c id w v
  exec-IsValid (set_mode id) c w h v p = set_mode-Valid c w v id
  exec-IsValid (query_property d) c w h v p = query_property-Valid c w v d
  exec-IsValid (set_property ps) c w h v p = set_property-Valid c w v ps
  exec-IsValid (open_channel_cfg cfg) c w h v p = open_channel-Valid c w v cfg p
  exec-IsValid (close_channel_id id) c w h v p = close_channel-Valid c w v id p
  exec-IsValid (start id) c w h v p = start-Valid c w v id
  exec-IsValid (stop id) c w h v p = stop-Valid c w v id
  exec-IsValid (register f g) c w h v p = unfold camera_register_event_action in (ground arith)

  -- A sequence of calls, with the session that is left; `none` where a call has no result.
  unfoldable pub run : List (K hal threads) → Cams → Sys hal.World → Option (Cams × Sys hal.World)
  unfolding exec
  run [] c w = some (c, w)
  run (k ∷ ks) c w = elim (exec hal threads k (some c) w) [
    | none ↦ none
    | some (ret, none, w') ↦ none
    | some (ret, some c', w') ↦ run ks c' w'
  ]

  abbrev pub AllProper : List (K hal threads) → Type 0
  AllProper [] = Unit {0}
  AllProper (k ∷ ks) = IsProper k × AllProper ks

  abbrev pub Ends : Option (Cams × Sys hal.World) → Type 0
  Ends none = ⊥
  Ends (some (c, w)) = IsValid c

  -- With a HAL whose list of cameras is as long as it says, any sequence of proper calls on a valid
  -- session, whatever their codes, runs to its end and leaves a valid session.
  pub run-IsValid :
      (ks : List (K hal threads)) (c : Cams) (w : Sys hal.World)
      → Lists hal
      → IsValid c
      → AllProper ks
      → Ends (run ks c w)
  unfolding run
  run-IsValid [] c w h v p = v
  run-IsValid (k ∷ ks) c w h v p =
      next (exec hal threads k (some c) w) (exec-IsValid k c w h v p.0)
        (λ c' w' v'. run-IsValid ks c' w' h v' p.1)
    where
      next :
          (o : Option (Result hal.World))
          → Valid o
          → ((c' : Cams) (w' : Sys hal.World) → IsValid c' → Ends (run ks c' w'))
          → Ends (elim o [
            | none ↦ none
            | some (ret, none, w') ↦ none
            | some (ret, some c', w') ↦ run ks c' w'
          ])
      next none bad rest = bad
      next (some (ret, none, w')) bad rest = bad
      next (some (ret, some c', w')) good rest = rest c' w' good
