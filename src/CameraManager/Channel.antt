-- ===== src/CameraManager/Channel.antt =====
-- The channel operations of camera_manager.c. A `chn_id` outside `chn_cfg[]` is an access outside
-- the array: no result.
use csi_hal.Prelude.{
  ℕ, suc, pos, negsuc, minus_one, is_zero, to_u32, Bool, true, false, not, ◌&&◌, Option, none, some,
  List, [], ◌∷◌, if◌then◌else◌, set, get_elem?,
}
use csi_hal.Hal.{Hal, ChannelCfg, invalid, closed, opened, is_status}
use csi_hal.CameraManager.State.{
  CameraState, state_code, Cams, Sys, Threads, channel_init_ready, get_info_status, set_info_status,
  check_session, accepts, check_state, eperm, Result,
}
use csi_hal.CameraManager.Device.{idle_states, open_states}

-- The first loop of `camera_channel_query_list`, over the rest of the array from channel `i` on.
unfoldable pub reset_channels : ℕ → List ChannelCfg → List ChannelCfg
reset_channels i [] = []
reset_channels i (cfg ∷ cfgs) =
    record cfg { chn_id = pos i; status = invalid } ∷ reset_channels (suc i) cfgs

module _ (hal : Hal) (threads : Threads hal.World) where
  -- The second loop. A channel that the list already showed to be invalid is left out; a query that
  -- fails is logged, and what it wrote stays.
  unfoldable pub query_channels :
      ℕ → Bool → List ChannelCfg → hal.World → List ChannelCfg × hal.World
  query_channels handle ready [] h = ([], h)
  query_channels handle ready (cfg ∷ cfgs) h =
      let (_, cfg', h') = hal.csi_camera_channel_query handle cfg h in
      let skip = ready && is_status cfg.status invalid in
      let here : ChannelCfg × hal.World = if skip then (cfg, h) else (cfg', h') in
      let (rest, h'') = query_channels handle ready cfgs here.1 in (here.0 ∷ rest, h'')

  unfoldable pub query_list : Cams → Sys hal.World → Cams × Sys hal.World
  query_list c w =
      let ready = get_info_status c channel_init_ready in
      let cfgs : List ChannelCfg = if ready then c.chn_cfg else reset_channels 0 c.chn_cfg in
      let (cfgs', h) = query_channels c.camera_handle ready cfgs w.hal in
      (set_info_status (record c { chn_cfg = cfgs' }) channel_init_ready true, record w { hal = h })

  unfoldable pub camera_channel_query_list : Option Cams → Sys hal.World → Result hal.World
  camera_channel_query_list session w =
      check_session session w
        λ c. check_state c open_states w (let (c', w') = query_list c w in (pos 0, some c', w'))

  -- Behind the query of the list; `old` is the session's own copy of the channel.
  unfoldable pub open_channel : Cams → ChannelCfg → ChannelCfg → Sys hal.World → Result hal.World
  open_channel c cfg old w =
      let (ret, h) = hal.csi_camera_channel_open c.camera_handle cfg w.hal in
      let (_, new, h') = hal.csi_camera_channel_query c.camera_handle old h in
      if not (is_status old.status closed)
      then (minus_one, some c, w)
      else if not (is_zero ret)
      then (minus_one, some c, record w { hal = h })
      else (
        pos 0,
        some (record c { chn_cfg = set c.chn_cfg (to_u32 cfg.chn_id) new }),
        record w { hal = h' },
      )

  -- The state was checked, so `camera_channel_query_list` returns 0 here; its code is not read.
  unfoldable pub listed : Cams → Sys hal.World → Cams × Sys hal.World
  listed c w = if get_info_status c channel_init_ready then (c, w) else query_list c w

  unfoldable pub open_listed : Cams → ChannelCfg → Sys hal.World → Option (Result hal.World)
  open_listed c cfg w = elim (get_elem? c.chn_cfg (to_u32 cfg.chn_id)) [
    | none ↦ none
    | some old ↦ some (open_channel c cfg old w)
  ]

  unfoldable pub camera_channel_open :
      Option Cams → ChannelCfg → Sys hal.World → Option (Result hal.World)
  camera_channel_open none cfg w = some (eperm, none, w)
  camera_channel_open (some c) cfg w =
      let (c', w') = listed c w in
      if accepts c open_states then open_listed c' cfg w' else some (eperm, some c, w)

  -- The session's copy of the channel is not queried again.
  unfoldable pub close_channel : Cams → ℕ → ChannelCfg → Sys hal.World → Result hal.World
  close_channel c chn_id cfg w =
      let (ret, h) = hal.csi_camera_channel_close c.camera_handle chn_id w.hal in
      if not (is_status cfg.status opened)
      then (minus_one, some c, w)
      else if not (is_zero ret)
      then (minus_one, some c, record w { hal = h })
      else (pos 0, some c, record w { hal = h })

  unfoldable pub camera_channel_close : Option Cams → ℕ → Sys hal.World → Option (Result hal.World)
  camera_channel_close none chn_id w = some (eperm, none, w)
  camera_channel_close (some c) chn_id w =
      let closing : Option (Result hal.World) = elim (get_elem? c.chn_cfg chn_id) [
        | none ↦ none
        | some cfg ↦ some (close_channel c chn_id cfg w)
      ] in
      if accepts c open_states then closing else some (eperm, some c, w)

  -- The event thread is `Events.event_thread`.
  unfoldable pub camera_channel_start : Option Cams → ℕ → Sys hal.World → Result hal.World
  camera_channel_start session chn_id w = check_session session w λ c. check_state c idle_states w (
      let (ret, h) = hal.csi_camera_channel_start c.camera_handle chn_id w.hal in
      let (ret', tid, h') = threads.pthread_create h in
      let c₁ = record c { event_action_thread_id = tid } in
      if not (is_zero ret)
      then (minus_one, some c, record w { hal = h })
      else if not (is_zero ret')
      then (minus_one, some c₁, record { hal = h'; camera_thread_flag = true })
      else (
        pos 0,
        some (record c₁ { state = CameraState.running }),
        record { hal = h'; camera_thread_flag = true },
      ))

  unfoldable pub camera_channel_stop : Option Cams → ℕ → Sys hal.World → Result hal.World
  camera_channel_stop session chn_id w = check_session session w λ c.
      check_state c (state_code CameraState.running) w (
        let (ret, h) = threads.pthread_join c.event_action_thread_id w.hal in
        let (ret', h') = hal.csi_camera_channel_stop c.camera_handle chn_id h in
        let c₁ = record c { event_action_thread_id = minus_one } in
        if not (is_zero ret)
        then (negsuc 1, some c, record { hal = h; camera_thread_flag = false })
        else if not (is_zero ret')
        then (minus_one, some c₁, record { hal = h'; camera_thread_flag = false })
        else (
          pos 0,
          some (record c₁ { state = CameraState.opened }),
          record { hal = h'; camera_thread_flag = false },
        ))
