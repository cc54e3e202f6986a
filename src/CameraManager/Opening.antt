-- ===== src/CameraManager/Opening.antt =====
-- What `camera_open` of camera_manager.c leaves in the session when it succeeds, and when it does.
use csi_hal.Prelude.{
  ℕ, zero, suc, ◌^◌, ◌<◌, ◌≤◌, ℤ, pos, minus_one, to_u32, ◌≡◌, ◌⊎◌, inl, inr, refl, Option-cases,
  ◌∙◌, ap, Bool, true, false, not, ◌||◌, ◌&&◌, ◌==◌, Option, none, some, List, [], ◌∷◌, map, arith,
  if◌then◌else◌, ltb, leb, get_elem?, tabulate, Bool-cases, get_elem?-map, get_elem?-tabulate,
}
use csi_hal.Hal.{Hal, CameraInfo}
use csi_hal.CameraManager.State.{opened, EventAction, Cams, Sys, Result}
use csi_hal.CameraManager.Device.{open_device, camera_open}
use csi_hal.CameraManager.Actions.{
  camera_entry, channel_entry, mark, mark_first, mark_camera, mark_channel, init_events,
}

-- Whether the platform lists an event.
abbrev pub contains : List ℕ → ℕ → Bool
contains [] e = false
contains (x ∷ xs) e = x == e || contains xs e

abbrev pub lists : Option (List ℕ) → ℕ → Bool
lists none e = false
lists (some es) e = contains es e

abbrev support : Bool → EventAction → EventAction
support b a = record a { supported = b || a.supported }

get_elem?-mark_camera :
    (es : Option (List ℕ)) (table : List EventAction) (i : ℕ) (a : EventAction)
    → get_elem? table i ≡ some a
    → get_elem? (mark_camera es table) i ≡ some (support (lists es a.event) a)
unfolding mark_camera mark
get_elem?-mark_camera none table i a e = e
get_elem?-mark_camera (some []) table i a e = e
get_elem?-mark_camera (some (x ∷ es)) table i a e =
    get_elem?-mark_camera (some es) (map (mark x) table) i (mark x a)
      (get_elem?-map (mark x) table i a e)
    ∙ ap some (ground arith)

get_elem?-mark_first :
    (n x : ℕ) (table : List EventAction) (i : ℕ) (a : EventAction)
    → get_elem? table i ≡ some a
    → get_elem? (mark_first n x table) i ≡ some (if ltb i n then mark x a else a)
unfolding mark_first
get_elem?-mark_first zero x table i a e = ground arith
get_elem?-mark_first (suc n) x [] i a e = cc
get_elem?-mark_first (suc n) x (b ∷ table) zero a e = ground arith
get_elem?-mark_first (suc n) x (b ∷ table) (suc i) a e =
    ground (arith, get_elem?-mark_first n x table i a e)

get_elem?-mark_channel :
    (es : Option (List ℕ)) (table : List EventAction) (i : ℕ) (a : EventAction)
    → get_elem? table i ≡ some a
    → get_elem? (mark_channel es table) i ≡ some (support (ltb i 8 && lists es a.event) a)
unfolding mark_channel mark
get_elem?-mark_channel none table i a e = ground arith
get_elem?-mark_channel (some []) table i a e = ground arith
get_elem?-mark_channel (some (x ∷ es)) table i a e =
    get_elem?-mark_channel (some es) (mark_first 8 x table) i (if ltb i 8 then mark x a else a)
      (get_elem?-mark_first 8 x table i a e)
    ∙ ap some (ground arith)

-- An entry of the tables: the event `1 << i`, supported or not, subscribed by nobody and with no action.
-- The target is 0 for the camera, 1 for a channel.
abbrev pub entry : ℕ → ℤ → ℤ → ℕ → Bool → EventAction
entry target camera_id channel_id i supported = record {
  target = target;
  camera_id = camera_id;
  channel_id = channel_id;
  event = 2 ^ i;
  supported = supported;
  subscribed = false;
  action = 0;
}

-- The entry of a channel's table.
abbrev pub cell : List (List EventAction) → ℕ → ℕ → Option EventAction
cell tables chn i = elim (get_elem? tables chn) [ none ↦ none | some table ↦ get_elem? table i ]

abbrev pub CameraTable : (ℕ → Option (List ℕ)) → ℤ → Cams → ℕ → Type 0
CameraTable spec id c i =
    get_elem? c.camera_event_action i ≡ some (entry 0 id minus_one i (lists (spec 2) (2 ^ i)))

abbrev pub ChannelTable : (ℕ → Option (List ℕ)) → ℤ → Cams → ℕ → ℕ → Type 0
ChannelTable spec id c chn i =
    cell c.channel_event_action chn i
    ≡ some (entry 1 id (pos chn) i (ltb i 8 && lists (spec 3) (2 ^ i)))

module _ (spec : ℕ → Option (List ℕ)) (id : ℤ) (c : Cams) (i : ℕ) (h : i < 32) where
  init_events-CameraTable : CameraTable spec id (init_events spec id c) i
  unfolding init_events camera_entry
  init_events-CameraTable =
      get_elem?-mark_camera (spec 2) (tabulate (camera_entry id) 32) i (camera_entry id i)
        (get_elem?-tabulate (camera_entry id) 32 i h)
      ∙ ap some (ground arith)

  init_events-ChannelTable :
      (chn : ℕ) → chn < 8 → ChannelTable spec id (init_events spec id c) chn i
  unfolding init_events channel_entry
  init_events-ChannelTable chn hc =
      let fresh = tabulate (channel_entry id chn) 32 in
      let tables = tabulate (λ k. tabulate (channel_entry id k) 32) 8 in
      let e : get_elem? (map (mark_channel (spec 3)) tables) chn
          ≡ some (mark_channel (spec 3) fresh) =
        get_elem?-map (mark_channel (spec 3)) tables chn fresh
          (get_elem?-tabulate (λ k. tabulate (channel_entry id k) 32) 8 chn hc) in
      rw e (
        get_elem?-mark_channel (spec 3) fresh i (channel_entry id chn i)
          (get_elem?-tabulate (channel_entry id chn) 32 i h)
        ∙ ap some (ground arith))

module _ (hal : Hal) where
  -- `camera_open` refuses, with no call of the HAL, when the list of cameras was not read or the id,
  -- taken as unsigned, is not below its count.
  pub open-refused :
      (c : Cams) (id : ℤ) (w : Sys hal.World)
      → (c.infos_ready ≡ false) ⊎ (c.camera_infos.count ≤ to_u32 id)
      → camera_open hal (some c) id w ≡ some (minus_one, some c, w)
  unfolding camera_open
  open-refused c id w h = ground arith

  handed : Cams → ℤ → CameraInfo → Sys hal.World → Cams
  handed c id info w =
      let (_, handle, h) = hal.csi_camera_open info.device_name w.hal in
      let (_, event_handle, _) = hal.csi_camera_create_event handle h in
      record c {
        camera_id = id;
        camera_handle = handle;
        state = opened;
        event_handle = event_handle;
      }

  open_device-handed :
      (c c' : Cams) (id : ℤ) (info : CameraInfo) (w w' : Sys hal.World)
      → open_device hal c id info w ≡ (pos 0, some c', w')
      → c' ≡ init_events hal.camera_spec_get_enum_array id (handed c id info w)
  unfolding open_device handed
  open_device-handed c c' id info w w' done = ground arith

  Opened : Cams → Cams → ℤ → Type 0
  Opened c c' id =
      (d : Cams) × (c' ≡ init_events hal.camera_spec_get_enum_array id d)
      × (d.state ≡ opened)
      × (d.camera_id ≡ id)
      × (c.infos_ready ≡ true)
      × (to_u32 id < c.camera_infos.count)

  handed-Opened :
      (c : Cams) (id : ℤ) (info : CameraInfo) (w : Sys hal.World)
      → ((handed c id info w).state ≡ opened) × ((handed c id info w).camera_id ≡ id)
  unfolding handed
  handed-Opened c id info w = (refl, refl)

  -- The camera that is opened, where one is.
  camera_open-device :
      (c : Cams) (id : ℤ) (w : Sys hal.World) (r : Result hal.World)
      → camera_open hal (some c) id w ≡ some r
      → (r ≡ (minus_one, some c, w))
        ⊎ ((info : CameraInfo) × (c.infos_ready ≡ true)
            × (to_u32 id < c.camera_infos.count)
            × (open_device hal c id info w ≡ r))
  unfolding camera_open
  camera_open-device c id w r done =
      elim (Bool-cases (not c.infos_ready || leb c.camera_infos.count (to_u32 id))) [
        | inl refused ↦ inl (ground arith)
        | inr ok ↦ elim (Option-cases (get_elem? c.camera_infos.info (to_u32 id))) [
          | inl out ↦ absurd (ground arith)
          | inr (info, e) ↦ inr (info, ground arith, ground arith, ground arith)
        ]
      ]

  camera_open-Opened :
      (c c' : Cams) (id : ℤ) (w w' : Sys hal.World)
      → camera_open hal (some c) id w ≡ some (pos 0, some c', w')
      → Opened c c' id
  unfolding Opened
  camera_open-Opened c c' id w w' done =
      elim (camera_open-device c id w (pos 0, some c', w') done) [
        | inl refused ↦ absurd (cc)
        | inr (info, r, n, d) ↦
            let (st, ci) = handed-Opened c id info w in
            (handed c id info w, open_device-handed c c' id info w w' d, st, ci, r, n)
      ]

  -- When `camera_open` returns 0, the session is opened on that camera, its list of cameras was
  -- ready, and the id below the count. Each of the 32 entries of its camera table, and of the table
  -- of each of the eight channels, holds its own event and is subscribed by nobody; it is supported
  -- exactly when the platform lists the event, but of a channel's events only the first eight are.
  pub open-tables :
      (c c' : Cams) (id : ℤ) (w w' : Sys hal.World) (i chn : ℕ)
      → camera_open hal (some c) id w ≡ some (pos 0, some c', w')
      → i < 32
      → chn < 8
      → (c'.state ≡ opened)
        × (c'.camera_id ≡ id)
        × (c.infos_ready ≡ true)
        × (to_u32 id < c.camera_infos.count)
        × CameraTable hal.camera_spec_get_enum_array id c' i
        × ChannelTable hal.camera_spec_get_enum_array id c' chn i
  unfolding Opened
  open-tables c c' id w w' i chn done hi hc =
      let (d, e, st, ci, r, n) = camera_open-Opened c c' id w w' done in
      let spec = hal.camera_spec_get_enum_array in
      rw e (
        unfold init_events in st,
        unfold init_events in ci,
        r,
        n,
        init_events-CameraTable spec id d i hi,
        init_events-ChannelTable spec id d i hi chn hc,
      )
