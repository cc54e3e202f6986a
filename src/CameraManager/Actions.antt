-- ===== src/CameraManager/Actions.antt =====
-- The tables of camera and channel events that `camera_open` builds (camera_manager.c).
use csi_hal.Prelude.{
  ℕ, zero, suc, ◌^◌, ℤ, pos, minus_one, true, false, Option, none, some, List, [], ◌∷◌, map,
  if◌then◌else◌, ◌==◌, tabulate,
}
use csi_hal.Hal.{channel_max_count, event_max_count}
use csi_hal.CameraManager.State.{EventAction, Cams}

-- The two values of `camera_sepc_enums_e` that the manager asks for.
abbrev pub spec_camera_event_types : ℕ
spec_camera_event_types = 2

abbrev pub spec_channel_event_types : ℕ
spec_channel_event_types = 3

-- An entry for the event `1 << i`; MANAGE_TARGET_CAMERA is 0, MANAGE_TARGET_CHANNEL 1.
unfoldable pub camera_entry : ℤ → ℕ → EventAction
camera_entry cam_id i = record {
  target = 0;
  camera_id = cam_id;
  channel_id = minus_one;
  event = 2 ^ i;
  supported = false;
  subscribed = false;
  action = 0;
}

unfoldable pub channel_entry : ℤ → ℕ → ℕ → EventAction
channel_entry cam_id chn i = record {
  target = 1;
  camera_id = cam_id;
  channel_id = pos chn;
  event = 2 ^ i;
  supported = false;
  subscribed = false;
  action = 0;
}

-- The inner loop over a whole table: the entries of one event become supported.
unfoldable pub mark : ℕ → EventAction → EventAction
mark e a = if e == a.event then record a { supported = true } else a

-- The inner loop over the first `n` entries.
unfoldable pub mark_first : ℕ → ℕ → List EventAction → List EventAction
mark_first zero e table = table
mark_first (suc n) e [] = []
mark_first (suc n) e (a ∷ table) = mark e a ∷ mark_first n e table

-- The loop over the enums that the platform lists, if it lists any.
unfoldable pub mark_camera : Option (List ℕ) → List EventAction → List EventAction
mark_camera none table = table
mark_camera (some []) table = table
mark_camera (some (e ∷ es)) table = mark_camera (some es) (map (mark e) table)

-- The same over every channel's table, where the loop ends at CSI_CAMERA_CHANNEL_MAX_COUNT.
unfoldable pub mark_channel : Option (List ℕ) → List EventAction → List EventAction
mark_channel none table = table
mark_channel (some []) table = table
mark_channel (some (e ∷ es)) table = mark_channel (some es) (mark_first channel_max_count e table)

-- The part of `camera_open` behind the event handle.
unfoldable pub init_events : (ℕ → Option (List ℕ)) → ℤ → Cams → Cams
init_events spec cam_id c = record c {
  camera_event_action =
      mark_camera (spec spec_camera_event_types) (tabulate (camera_entry cam_id) event_max_count);
  channel_event_action =
      map (mark_channel (spec spec_channel_event_types))
        (tabulate (λ chn. tabulate (channel_entry cam_id chn) event_max_count) channel_max_count);
  event_action_thread_id = minus_one;
}
