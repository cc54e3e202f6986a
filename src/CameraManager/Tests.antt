-- ===== src/CameraManager/Tests.antt =====
-- The camera manager over a small HAL that counts its calls, and the theorems at that HAL.
use csi_hal.Prelude.{
  ℕ, ◌+◌, ◌<◌, ℤ, pos, minus_one, ◌≡◌, refl, true, false, some, List, [], ◌∷◌, arith,
}
use csi_hal.Hal.{Hal, Infos, CameraInfo, ChannelCfg, opened, no_cfg}
use csi_hal.CameraManager.State.{CameraState, Cams, Threads, Sys, camera_session_reset}
use csi_hal.CameraManager.Device.{
  camera_query_list, camera_open, open_device, camera_set_mode, camera_close,
}
use csi_hal.CameraManager.Actions.{
  camera_entry, channel_entry, mark, mark_first, mark_camera, mark_channel, init_events,
}
use csi_hal.CameraManager.Channel.{
  camera_channel_query_list, query_list, query_channels, reset_channels, camera_channel_open,
  camera_channel_close, close_channel, camera_channel_start, camera_channel_stop,
}
use csi_hal.CameraManager.Events.{Turn, camera_subscribe_event, event_thread}
use csi_hal.CameraManager.Lifecycle.{
  Call, list, open_camera, set_mode, query_channels as query_channels_call, start, stop, close,
  Leaves, Allowed, exec,
}
use csi_hal.CameraManager.Lifecycle.Moves.{exec-Allowed}
use csi_hal.CameraManager.Lifecycle.Invariant.{Lists, camera_session_reset-IsValid}
use csi_hal.CameraManager.Lifecycle.Total.{run, run-IsValid, Ends}
use csi_hal.CameraManager.Guards.{close-open_refused}
use csi_hal.CameraManager.Opening.{open-tables, CameraTable, ChannelTable}
use csi_hal.CameraManager.Subscribing.{requests, ask_all, subscribe-requests}
use csi_hal.CameraManager.Waiting.{Runs, event_thread-Runs}

abbrev camera : CameraInfo
camera = record {
  camera_name = "RGB_Camera";
  device_name = "/dev/video0";
  bus_info = "CSI-MIPI";
  capabilities = 1;
}

abbrev infos : Infos
infos = record { count = 1; info = camera ∷ [] }

abbrev fine : ℕ → ℤ × ℕ
fine h = (pos 0, h + 1)

-- Every call succeeds, and every channel is closed until it is opened.
abbrev demo : Hal
demo = record {
  World = ℕ;
  Property = ℕ;
  Description = ℕ;
  csi_camera_query_list = λ _ h. (pos 0, infos, h + 1);
  csi_camera_open = λ _ h. (pos 0, 7, h + 1);
  csi_camera_close = λ _ h. fine h;
  csi_camera_get_modes = λ _ m h. (pos 0, m, h + 1);
  csi_camera_set_mode = λ _ _ h. fine h;
  csi_camera_query_property = λ _ d h. (pos 0, d, h + 1);
  csi_camera_set_property = λ _ _ h. fine h;
  csi_camera_channel_query = λ _ cfg h. (pos 0, record cfg { status = opened }, h + 1);
  csi_camera_channel_open = λ _ _ h. fine h;
  csi_camera_channel_close = λ _ _ h. fine h;
  csi_camera_channel_start = λ _ _ h. fine h;
  csi_camera_channel_stop = λ _ _ h. fine h;
  csi_camera_create_event = λ _ h. (pos 0, 9, h + 1);
  csi_camera_destory_event = λ _ h. fine h;
  csi_camera_subscribe_event = λ _ _ h. fine h;
  csi_camera_unsubscribe_event = λ _ _ h. fine h;
  camera_spec_get_enum_array = λ p. some (1 ∷ 2 ∷ []);
}

abbrev threads : Threads ℕ
threads = record { pthread_create = λ h. (pos 0, pos 5, h); pthread_join = λ _ h. (pos 0, h) }

abbrev sys : Sys ℕ
sys = record { hal = 0; camera_thread_flag = true }

demo-Lists : Lists demo
demo-Lists i h le = omega arith

abbrev script : List (Call ℕ ℕ)
script =
    list
    ∷ open_camera (pos 0)
    ∷ query_channels_call
    ∷ set_mode (pos 1)
    ∷ start 0
    ∷ stop 0
    ∷ close
    ∷ []

run-IsValid_example : Ends demo threads (run demo threads script camera_session_reset sys)
run-IsValid_example =
    run-IsValid demo threads script camera_session_reset sys demo-Lists camera_session_reset-IsValid
      (tt, (tt, (tt, (tt, (omega arith, (omega arith, (tt, tt)))))))

-- A session with the list read, and one opened, with one channel up.
abbrev ready : Cams
ready = record camera_session_reset { infos_ready = true; camera_infos = infos }

abbrev up : ChannelCfg
up = record no_cfg { status = opened }

abbrev live : Cams
live = record ready {
  state = CameraState.opened;
  init_ready = true;
  camera_id = pos 0;
  camera_handle = 7;
  chn_cfg = up ∷ no_cfg ∷ no_cfg ∷ no_cfg ∷ no_cfg ∷ no_cfg ∷ no_cfg ∷ no_cfg ∷ [];
  camera_event_action =
      (record (camera_entry (pos 0) 0) { supported = true; subscribed = true })
      ∷ record (camera_entry (pos 0) 1) { supported = true }
      ∷ camera_entry (pos 0) 2
      ∷ [];
}

-- Sixteen calls of the HAL for `script`: eight are queries of channels.
script_runs :
    run demo threads script camera_session_reset sys
    ≡ some (camera_session_reset, record { hal = 16; camera_thread_flag = false })
unfolding run camera_query_list camera_open open_device init_events mark_camera mark_channel
    mark_first mark camera_entry channel_entry camera_channel_query_list query_list query_channels
    reset_channels camera_set_mode camera_channel_start camera_channel_stop camera_close
script_runs = refl

exec-Allowed_example :
    Leaves
      (λ ret c. Allowed {P = ℕ} {D = ℕ} (start 2) CameraState.opened ret c.state)
      (camera_channel_start demo threads (some live) 2 sys)
unfolding exec
exec-Allowed_example = exec-Allowed demo threads (start 2) live sys refl

close-open_refused_example :
    camera_channel_open demo threads (some live) no_cfg (record sys { hal = 1 })
    ≡ some (minus_one, some live, record sys { hal = 1 })
unfolding camera_channel_close close_channel
close-open_refused_example =
    close-open_refused demo threads live live 0 no_cfg sys (record sys { hal = 1 }) refl refl refl

abbrev after_open : Cams
after_open = init_events demo.camera_spec_get_enum_array (pos 0) (record ready {
  camera_id = pos 0;
  camera_handle = 7;
  state = CameraState.opened;
  event_handle = 9;
})

open-tables_example :
    (after_open.state ≡ CameraState.opened)
    × (after_open.camera_id ≡ pos 0)
    × (true ≡ true)
    × (0 < 1)
    × CameraTable demo.camera_spec_get_enum_array (pos 0) after_open 1
    × ChannelTable demo.camera_spec_get_enum_array (pos 0) after_open 3 1
unfolding camera_open open_device
open-tables_example =
    open-tables demo ready after_open (pos 0) sys (record sys { hal = 2 }) 1 3 refl (omega arith)
      (omega arith)

subscribe-requests_example :
    camera_subscribe_event demo (some live) sys
    ≡ (pos 0, some live, record sys { hal = ask_all demo 0 (requests live) 0 })
subscribe-requests_example = subscribe-requests demo live sys refl

abbrev turns : List Turn
turns =
    record { flag = true; ret = pos 0; event = record { type = pos 0; id = 1 } }
    ∷ record { flag = true; ret = minus_one; event = record { type = pos 1; id = 1 } }
    ∷ record { flag = true; ret = pos 0; event = record { type = pos 9; id = 1 } }
    ∷ []

abbrev registered : Cams
registered = record live { camera_action_fun = some 42 }

event_thread_runs : event_thread registered turns ≡ (42, record { type = pos 0; id = 1 }) ∷ []
unfolding event_thread
event_thread_runs = refl

event_thread-Runs_example : Runs registered turns (event_thread registered turns)
event_thread-Runs_example = event_thread-Runs registered turns

abbrev last : Turn
last = record { flag = false; ret = pos 0; event = record { type = pos 0; id = 1 } }
