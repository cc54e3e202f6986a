-- ===== src/Simulator/Platform/Tests.antt =====
-- A session on the simulated platform with its three channels, and the theorems applied to it.
use csi_hal.Prelude.{ℕ, pos, ◌≡◌, refl, true, false, some, none, [], ◌∷◌, set, get_elem?}
use csi_hal.Hal.{ChannelCfg, closed, opened, no_cfg}
use csi_hal.CameraManager.State.{CameraState, Cams, Sys, Threads, camera_session_reset}
use csi_hal.CameraManager.Channel.{camera_channel_query_list, camera_channel_open}
use csi_hal.Simulator.Frames.{Channel}
use csi_hal.Simulator.Channels.Operations.{stop_all}
use csi_hal.Simulator.Device.{Llist}
use csi_hal.Simulator.Platform.{Outside, Platform, World, simulator}
use csi_hal.Simulator.Platform.Session.{mirror, query_list-mirror, channel_open-mirror}

abbrev outside : Outside
outside = record {
  camera_open_opencv = λ idx. pos 0;
  camera_set_mode_opencv = λ cfg. pos 0;
  camera_property_set_opencv = λ q. pos 0;
  calls = λ n. record {
    fuel = 1;
    consumer_node = 30;
    consumer_create = pos 0;
    dispatcher_create = pos 0;
    pthread_create = pos 0;
    pthread_join = pos 0;
  };
  given = λ n. record {
    mode_cfg = 10;
    subscribe_event = 11;
    event = 12;
    handle = 13;
    buf = λ i. 100;
    dispatcher = 50;
    dispatcher_bytes = 400;
  };
  node = λ n. 20;
  buf = λ n i. 200;
}

abbrev threads : Threads World
threads = record { pthread_create = λ w. (pos 0, pos 1, w); pthread_join = λ t w. (pos 0, w) }

abbrev channel : ℕ → Channel
channel i = record {
  cfg = record no_cfg { chn_id = pos i; frm_cnt = 4; status = closed };
  slots = [];
}

abbrev no_list : {A : Type 0} → A → Llist A
no_list a = record {
  memory = record { live = λ p. false; prev = λ p. 0; next = λ p. 0; item = λ p. a };
  head = 0;
}

abbrev platform : Platform
platform = record {
  device = record {
    mode_cfg = no_list (record { mode_id = pos 0 });
    subscribe_event = no_list (record { type = pos 0; id = 0 });
    event = no_list (record { type = pos 0; id = 0 });
    frames = [];
    dispatcher = 0;
    heap = λ a. none;
  };
  camera = record {
    channels = channel 0 ∷ channel 1 ∷ channel 2 ∷ [];
    heap = λ a. none;
    producing = false;
    frame_csem = 0;
    dispatcher = some none;
  };
  descriptions = [];
  handle = some (13, pos 0);
  fuel = 9;
  tick = 1;
}

abbrev session : Cams
session = record camera_session_reset { state = CameraState.opened; camera_handle = 13 }

abbrev sys : Sys World
sys = record { hal = some platform; camera_thread_flag = false }

query_list-mirror_example :
    camera_channel_query_list (simulator outside) threads (some session) sys ≡ (
      pos 0,
      some (record session {
        chn_cfg = mirror platform.camera.channels 0 session.chn_cfg;
        init_ready = true;
      }),
      sys,
    )
query_list-mirror_example = query_list-mirror outside threads platform refl session false refl refl

-- The session behind the list.
abbrev listed_session : Cams
listed_session = record session {
  chn_cfg = mirror platform.camera.channels 0 session.chn_cfg;
  init_ready = true;
}

abbrev asked : ChannelCfg
asked = record no_cfg { frm_cnt = 2 }

channel_open-mirror_example :
    (p' : Platform) × (camera_channel_open
        (simulator outside)
        threads
        (some listed_session)
        (record asked { chn_id = pos 1 })
        sys
      ≡ some (
        pos 0,
        some (record listed_session {
          chn_cfg = set listed_session.chn_cfg 1 (record asked { chn_id = pos 1; status = opened });
        }),
        record { hal = some p'; camera_thread_flag = false },
      ))
    × ((ch : Channel) × (get_elem? p'.camera.channels 1 ≡ some ch)
        × (ch.cfg ≡ record asked { chn_id = pos 1; status = opened }))
unfolding stop_all
channel_open-mirror_example =
    channel_open-mirror outside threads platform refl listed_session false 1 asked (channel 1).cfg
      platform.camera refl refl refl refl refl refl refl
