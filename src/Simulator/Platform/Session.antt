-- ===== src/Simulator/Platform/Session.antt =====
-- A session of the camera manager (src/lib_camera/camera_manager.c) on the simulated platform
-- (src/platform/simulator/csi_camera.c).
use csi_hal.Prelude.{
  ℕ, zero, suc, ◌<◌, ◌≤◌, ℤ, pos, minus_one, to_u32, ◌≡◌, inl, inr, refl, ap, ◌∙◌, Bool, true,
  false, Option, none, some, List, [], ◌∷◌, arith, length, ltb, get_elem?, get_elem?-some, set,
  if◌then◌else◌, Bool-cases,
}
use csi_hal.Hal.{Hal, ChannelCfg, closed, opened, invalid, is_status}
use csi_hal.CameraManager.State.{Cams, Sys, Threads, accepts, channel_init_ready, get_info_status}
use csi_hal.CameraManager.Device.{open_states}
use csi_hal.CameraManager.Channel.{
  reset_channels, query_channels, query_list, camera_channel_query_list, open_channel, open_listed,
  listed, camera_channel_open,
}
use csi_hal.Simulator.Frames.{Channel}
use csi_hal.Simulator.Channels.{Camera, Calls, reset_all}
use csi_hal.Simulator.Channels.Operations.{
  stop_all, with_cfg, csi_camera_channel_query, csi_camera_channel_open,
}
use csi_hal.Simulator.Channels.Outcome.{stop_all-channels}
use csi_hal.Simulator.Platform.{Outside, Platform, answer, on_camera, run, simulator}

-- The session's copy of channel `i` as the platform has it: the channels behind those of the platform
-- stay invalid.
abbrev pub mirrored : List Channel → ℕ → ChannelCfg → ChannelCfg
mirrored channels i old = elim (get_elem? channels i) [
  | none ↦ record old { chn_id = pos i; status = invalid }
  | some ch ↦ ch.cfg
]

abbrev pub mirror : List Channel → ℕ → List ChannelCfg → List ChannelCfg
mirror channels i [] = []
mirror channels i (cfg ∷ cfgs) = mirrored channels i cfg ∷ mirror channels (suc i) cfgs

get_elem?-outside :
    (channels : List Channel) (i : ℕ) → length channels ≤ i → get_elem? channels i ≡ none
get_elem?-outside [] i h = refl
get_elem?-outside (c ∷ channels) zero h = absurd (omega arith)
get_elem?-outside (c ∷ channels) (suc i) h = get_elem?-outside channels i (omega arith)

query-at :
    (c : Camera) (id : ℕ) (old : ChannelCfg) (ch : Channel)
    → old.chn_id ≡ pos id
    → ltb 2 id ≡ false
    → get_elem? c.channels id ≡ some ch
    → csi_camera_channel_query (some old) c ≡ some (pos 0, some ch.cfg)
unfolding csi_camera_channel_query
query-at c id old ch e inside at = rw (e, inside, at) refl

open-stopped :
    (k : Calls) (c c₁ : Camera) (id : ℕ) (cfg : ChannelCfg)
    → ltb 2 id ≡ false
    → stop_all k c ≡ some (pos 0, c₁)
    → csi_camera_channel_open k (some (record cfg { chn_id = pos id })) c
      ≡ some (
        pos 0,
        record c₁ {
          channels =
              with_cfg id (record cfg { chn_id = pos id; status = opened }) (reset_all c₁.channels);
        },
      )
unfolding csi_camera_channel_open
open-stopped k c c₁ id cfg inside stops = rw (inside, stops, csi_camera_channel_open) refl

module _ (hal : Hal) (threads : Threads hal.World) where
  camera_channel_open-listed :
      (c : Cams) (cfg old : ChannelCfg) (w : Sys hal.World)
      → accepts c open_states ≡ true
      → get_info_status c channel_init_ready ≡ true
      → get_elem? c.chn_cfg (to_u32 cfg.chn_id) ≡ some old
      → camera_channel_open hal threads (some c) cfg w ≡ some (open_channel hal threads c cfg old w)
  unfolding camera_channel_open listed open_listed
  camera_channel_open-listed c cfg old w allowed ready at = ground (arith, allowed, ready, at)

  open_channel-closed :
      (c : Cams) (cfg old : ChannelCfg) (w : Sys hal.World) (new : ChannelCfg) (h h' : hal.World)
      (r : ℤ)
      → hal.csi_camera_channel_open c.camera_handle cfg w.hal ≡ (pos 0, h)
      → hal.csi_camera_channel_query c.camera_handle old h ≡ (r, new, h')
      → is_status old.status closed ≡ true
      → open_channel hal threads c cfg old w ≡ (
        pos 0,
        some (record c { chn_cfg = set c.chn_cfg (to_u32 cfg.chn_id) new }),
        record w { hal = h' },
      )
  unfolding open_channel
  open_channel-closed c cfg old w new h h' r opens queries is_closed =
      rw (opens, queries, is_closed) refl

module _ (o : Outside) (threads : Threads (Option Platform)) (p : Platform)
    (three : length p.camera.channels ≡ 3) where
  query-mirrored :
      (handle i : ℕ) (old : ChannelCfg)
      → (simulator o).csi_camera_channel_query handle
          (record old { chn_id = pos i; status = invalid })
          (some p)
        ≡ ((if ltb 2 i then minus_one else pos 0), mirrored p.camera.channels i old, some p)
  unfolding csi_camera_channel_query
  query-mirrored handle i old = elim (Bool-cases (ltb 2 i)) [
    | inl outside ↦
        ground (arith, outside, get_elem?-outside p.camera.channels i (ground (arith, three)))
    | inr inside ↦
        let (ch, at) = get_elem?-some p.camera.channels i (ground (arith, three)) in
        ground (arith, inside, at)
  ]

  query_channels-mirror :
      (handle i : ℕ) (cfgs : List ChannelCfg)
      → query_channels (simulator o) threads handle false (reset_channels i cfgs) (some p)
        ≡ (mirror p.camera.channels i cfgs, some p)
  unfolding query_channels reset_channels
  query_channels-mirror handle i [] = refl
  query_channels-mirror handle i (cfg ∷ cfgs) =
      let here = query-mirrored handle i cfg in
      let rest = query_channels-mirror handle (suc i) cfgs in rw (here, rest) refl

  -- The first camera_channel_query_list of a session on the simulator returns 0, copies the configuration of
  -- each channel of the platform, marks all channels behind these as invalid, and changes nothing of the platform.
  pub query_list-mirror :
      (c : Cams) (flag : Bool)
      → accepts c open_states ≡ true
      → get_info_status c channel_init_ready ≡ false
      → camera_channel_query_list
          (simulator o)
          threads
          (some c)
          (record { hal = some p; camera_thread_flag = flag })
        ≡ (
          pos 0,
          some (record c { chn_cfg = mirror p.camera.channels 0 c.chn_cfg; init_ready = true }),
          record { hal = some p; camera_thread_flag = flag },
        )
  unfolding camera_channel_query_list query_list
  query_list-mirror c flag allowed first =
      rw (allowed, first, query_channels-mirror c.camera_handle 0 c.chn_cfg) refl

  reset-length : (channels : List Channel) → length (reset_all channels) ≡ length channels
  reset-length [] = refl
  reset-length (c ∷ channels) = ap suc (reset-length channels)

  with_cfg-get :
      (i : ℕ) (cfg : ChannelCfg) (channels : List Channel)
      → i < length channels
      → (ch : Channel) × (get_elem? (with_cfg i cfg channels) i ≡ some ch) × (ch.cfg ≡ cfg)
  with_cfg-get i cfg [] h = absurd (omega arith)
  with_cfg-get zero cfg (c ∷ channels) h = (record c { cfg = cfg }, refl, refl)
  with_cfg-get (suc i) cfg (c ∷ channels) h = with_cfg-get i cfg channels (omega arith)

  -- The platform with channel `id` open, by a configuration that names it.
  opened_platform : Camera → ℕ → ChannelCfg → Platform
  opened_platform c₁ id cfg = record p {
    camera = record c₁ {
      channels =
          with_cfg id (record cfg { chn_id = pos id; status = opened }) (reset_all c₁.channels);
    };
    tick = suc p.tick;
  }

  channel_open-opened :
      (handle id : ℕ) (cfg : ChannelCfg) (c₁ : Camera)
      → ltb 2 id ≡ false
      → stop_all (o.calls p.tick) p.camera ≡ some (pos 0, c₁)
      → (simulator o).csi_camera_channel_open handle (record cfg { chn_id = pos id }) (some p)
        ≡ (pos 0, some (opened_platform c₁ id cfg))
  unfolding opened_platform
  channel_open-opened handle id cfg c₁ inside stops =
      ap (λ r. run (λ q. on_camera q r) (some p))
        (open-stopped (o.calls p.tick) p.camera c₁ id cfg inside stops)

  opened-channel :
      (id : ℕ) (cfg : ChannelCfg) (c₁ : Camera)
      → ltb 2 id ≡ false
      → c₁.channels ≡ p.camera.channels
      → (ch : Channel) × (get_elem? (opened_platform c₁ id cfg).camera.channels id ≡ some ch)
        × (ch.cfg ≡ record cfg { chn_id = pos id; status = opened })
  unfolding opened_platform
  opened-channel id cfg c₁ inside channels =
      with_cfg-get id (record cfg { chn_id = pos id; status = opened }) (reset_all c₁.channels)
        (ground (arith, reset-length c₁.channels, ap length channels, three))

  query-opened :
      (handle id : ℕ) (cfg old : ChannelCfg) (c₁ : Camera)
      → ltb 2 id ≡ false
      → c₁.channels ≡ p.camera.channels
      → old.chn_id ≡ pos id
      → (simulator o).csi_camera_channel_query handle old (some (opened_platform c₁ id cfg))
        ≡ (pos 0, record cfg { chn_id = pos id; status = opened }, some (opened_platform c₁ id cfg))
  query-opened handle id cfg old c₁ inside channels old_id =
      let (ch, at, same) = opened-channel id cfg c₁ inside channels in
      ap (answer old (opened_platform c₁ id cfg)) (
        query-at (opened_platform c₁ id cfg).camera id old ch old_id inside at
        ∙ ap (λ z. some (pos 0, some z)) same)

  -- camera_channel_open of a channel of the simulator that the session has listed as closed, by its id, returns 0
  -- where the dispatcher stops if it runs: the session's copy is then the configuration that was asked for, marked as
  -- open, and so is the platform's.
  pub channel_open-mirror :
      (c : Cams) (flag : Bool) (id : ℕ) (cfg old : ChannelCfg) (c₁ : Camera)
      → accepts c open_states ≡ true
      → get_info_status c channel_init_ready ≡ true
      → get_elem? c.chn_cfg id ≡ some old
      → old.chn_id ≡ pos id
      → is_status old.status closed ≡ true
      → ltb 2 id ≡ false
      → stop_all (o.calls p.tick) p.camera ≡ some (pos 0, c₁)
      → (p' : Platform) × (camera_channel_open
            (simulator o)
            threads
            (some c)
            (record cfg { chn_id = pos id })
            (record { hal = some p; camera_thread_flag = flag })
          ≡ some (
            pos 0,
            some (record c {
              chn_cfg = set c.chn_cfg id (record cfg { chn_id = pos id; status = opened });
            }),
            record { hal = some p'; camera_thread_flag = flag },
          ))
        × ((ch : Channel) × (get_elem? p'.camera.channels id ≡ some ch)
            × (ch.cfg ≡ record cfg { chn_id = pos id; status = opened }))
  channel_open-mirror c flag id cfg old c₁ allowed ready at old_id old_closed inside stops =
      let channels = stop_all-channels (o.calls p.tick) p.camera c₁ (pos 0) stops in
      (
        opened_platform c₁ id cfg,
        camera_channel_open-listed (simulator o) threads c (record cfg { chn_id = pos id }) old _
              allowed ready at
            ∙ ap some (
                open_channel-closed (simulator o) threads c (record cfg { chn_id = pos id }) old _
                  (record cfg { chn_id = pos id; status = opened })
                  (some (opened_platform c₁ id cfg)) (some (opened_platform c₁ id cfg)) (pos 0)
                  (channel_open-opened c.camera_handle id cfg c₁ inside stops)
                  (query-opened c.camera_handle id cfg old c₁ inside channels old_id) old_closed),
        opened-channel id cfg c₁ inside channels,
      )
