-- ===== src/CameraManager/Lifecycle/Invariant.antt =====
-- The invariant of a session under every call of camera_manager.c, and that calls return.
use csi_hal.Prelude.{
  ℕ, zero, suc, ◌<◌, ◌≤◌, ℤ, to_u32, ◌≡◌, ◌⊎◌, refl, ap, ◌∙◌, inl, inr, Bool, true, not, ◌||◌,
  Option, none, some, List, [], ◌∷◌, map, arith, leb, length, tabulate, Bool-cases, length-map,
  length-tabulate, length-set, get_elem?-some,
}
use csi_hal.Hal.{Hal, ChannelCfg, Infos, CameraInfo}
use csi_hal.CameraManager.State.{
  closed, opened, EventAction, Cams, Sys, Threads, Result, camera_session_reset,
}
use csi_hal.CameraManager.Device.{open_device, camera_open}
use csi_hal.CameraManager.Actions.{
  camera_entry, channel_entry, mark, mark_first, mark_camera, mark_channel, init_events,
}
use csi_hal.CameraManager.Channel.{
  reset_channels, query_channels, listed, query_list, camera_channel_query_list, open_channel,
  open_listed,
}
use csi_hal.CameraManager.Lifecycle.{Call, open_channel_cfg, close_channel_id, Leaves}

-- The tables have the sizes of the C arrays, and a session that is not closed has a list of cameras
-- with its camera in it.
pub record IsValid (c : Cams) : Type 0 where
  pub channels : length c.chn_cfg ≡ 8
  pub camera_table : length c.camera_event_action ≡ 32
  pub channel_tables : length c.channel_event_action ≡ 8
  pub infos : c.camera_infos.count ≤ length c.camera_infos.info
  pub live :
      (c.state ≡ closed) ⊎ ((c.infos_ready ≡ true) × (to_u32 c.camera_id < c.camera_infos.count))

-- The list of cameras that the HAL returns is as long as it says.
abbrev pub Lists : Hal → Type 0
Lists hal =
    (i : Infos) (h : hal.World)
    → i.count ≤ length i.info
    → let (_, i', _) = hal.csi_camera_query_list i h in i'.count ≤ length i'.info

-- A channel is one of the eight.
abbrev pub IsProper : {P D : Type 0} → Call P D → Type 0
IsProper (open_channel_cfg cfg) = to_u32 cfg.chn_id < 8
IsProper (close_channel_id id) = id < 8
IsProper _ = Unit {0}

length-mark_first :
    (n e : ℕ) (table : List EventAction) → length (mark_first n e table) ≡ length table
unfolding mark_first
length-mark_first zero e table = refl
length-mark_first (suc n) e [] = refl
length-mark_first (suc n) e (a ∷ table) = ap suc (length-mark_first n e table)

length-mark_camera :
    (es : List ℕ) (table : List EventAction) → length (mark_camera (some es) table) ≡ length table
unfolding mark_camera
length-mark_camera [] table = refl
length-mark_camera (e ∷ es) table =
    length-mark_camera es (map (mark e) table) ∙ length-map (mark e) table

length-reset_channels :
    (i : ℕ) (cfgs : List ChannelCfg) → length (reset_channels i cfgs) ≡ length cfgs
unfolding reset_channels
length-reset_channels i [] = refl
length-reset_channels i (cfg ∷ cfgs) = ap suc (length-reset_channels (suc i) cfgs)

length-query_channels :
    (hal : Hal) (threads : Threads hal.World) (handle : ℕ) (ready : Bool) (cfgs : List ChannelCfg)
    (h : hal.World)
    → length (query_channels hal threads handle ready cfgs h).0 ≡ length cfgs
unfolding query_channels
length-query_channels hal threads handle ready [] h = refl
length-query_channels hal threads handle ready (cfg ∷ cfgs) h =
    ap suc (length-query_channels hal threads handle ready cfgs _)

init_events-IsValid :
    (spec : ℕ → Option (List ℕ)) (id : ℤ) (c : Cams)
    → length c.chn_cfg ≡ 8
    → c.camera_infos.count ≤ length c.camera_infos.info
    → c.infos_ready ≡ true
    → to_u32 c.camera_id < c.camera_infos.count
    → IsValid (init_events spec id c)
unfolding init_events mark_camera
init_events-IsValid spec id c l i r n = record {
  channels = l;
  camera_table = table (spec 2);
  channel_tables = tables (tabulate (channel_table id) 8) (length-tabulate (channel_table id) 8);
  infos = i;
  live = inr (r, n);
}
  where
    channel_table : ℤ → ℕ → List EventAction
    channel_table i chn = tabulate (channel_entry i chn) 32

    tables :
        (l : List (List EventAction)) → length l ≡ 8 → length (map (mark_channel (spec 3)) l) ≡ 8
    tables l e = length-map (mark_channel (spec 3)) l ∙ e

    table : (es : Option (List ℕ)) → length (mark_camera es (tabulate (camera_entry id) 32)) ≡ 32
    table none = length-tabulate (camera_entry id) 32
    table (some es) = length-mark_camera es _ ∙ length-tabulate (camera_entry id) 32

-- The option holds a result, and the session of that result is there and valid.
abbrev pub Valid : {W : Type 0} → Option (Result W) → Type 0
Valid none = ⊥
Valid (some r) = Leaves (λ _ c. IsValid c) r

pub camera_session_reset-IsValid : IsValid camera_session_reset
camera_session_reset-IsValid = ground arith

module _ (hal : Hal) (threads : Threads hal.World) where
  pub listed-IsValid :
      (c : Cams) (w : Sys hal.World) → IsValid c → IsValid (listed hal threads c w).0
  unfolding listed query_list
  listed-IsValid c w v = ground (
    arith,
    length-reset_channels 0 c.chn_cfg,
    length-query_channels hal threads c.camera_handle c.init_ready (reset_channels 0 c.chn_cfg)
        w.hal,
  )

  pub query_channels-IsValid :
      (c : Cams) (w : Sys hal.World)
      → IsValid c
      → Valid (some (camera_channel_query_list hal threads (some c) w))
  unfolding camera_channel_query_list query_list
  query_channels-IsValid c w v = ground (
    arith,
    length-reset_channels 0 c.chn_cfg,
    length-query_channels hal threads c.camera_handle c.init_ready (reset_channels 0 c.chn_cfg)
        w.hal,
    length-query_channels hal threads c.camera_handle c.init_ready c.chn_cfg w.hal,
  )

  pub open_channel-IsValid :
      (c : Cams) (cfg old : ChannelCfg) (w : Sys hal.World)
      → IsValid c
      → Valid (some (open_channel hal threads c cfg old w))
  unfolding open_channel
  open_channel-IsValid c cfg old w v =
      let h = (hal.csi_camera_channel_open c.camera_handle cfg w.hal).1 in
      let new = (hal.csi_camera_channel_query c.camera_handle old h).1 in
      ground (arith, length-set c.chn_cfg (to_u32 cfg.chn_id) new)

  pub open_listed-IsValid :
      (c : Cams) (cfg : ChannelCfg) (w : Sys hal.World)
      → IsValid c
      → to_u32 cfg.chn_id < 8
      → Valid (open_listed hal threads c cfg w)
  unfolding open_listed
  open_listed-IsValid c cfg w v h =
      let (old, e) = get_elem?-some c.chn_cfg (to_u32 cfg.chn_id) (omega arith) in
      rw (e, open_listed) (open_channel-IsValid c cfg old w v)

  open_device-IsValid :
      (c : Cams) (id : ℤ) (info : CameraInfo) (w : Sys hal.World)
      → IsValid c
      → c.infos_ready ≡ true
      → to_u32 id < c.camera_infos.count
      → Valid (some (open_device hal c id info w))
  unfolding open_device
  open_device-IsValid c id info w v r n =
      let (ret, handle, h) = hal.csi_camera_open info.device_name w.hal in
      let (ret', event_handle, h') = hal.csi_camera_create_event handle h in
      let c₁ = record c {
        camera_id = id;
        camera_handle = handle;
        state = opened;
        event_handle = event_handle;
      } in
      ground
        (arith, init_events-IsValid hal.camera_spec_get_enum_array id c₁ v.channels v.infos r n)

  pub camera_open-IsValid :
      (c : Cams) (id : ℤ) (w : Sys hal.World) → IsValid c → Valid (camera_open hal (some c) id w)
  unfolding camera_open
  camera_open-IsValid c id w v =
      elim (Bool-cases (not c.infos_ready || leb c.camera_infos.count (to_u32 id))) [
        | inl refused ↦ rw (refused, camera_open) v
        | inr ok ↦
            let (info, e) = get_elem?-some c.camera_infos.info (to_u32 id) (ground arith) in
            rw (ok, camera_open)
              (rw e (open_device-IsValid c id info w v (ground arith) (ground arith)))
      ]
