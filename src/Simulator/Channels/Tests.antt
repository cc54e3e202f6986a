-- ===== src/Simulator/Channels/Tests.antt =====
-- A channel of two frames of 4 × 4 pixels, and the theorems applied to it.
use csi_hal.Prelude.{
  ℕ, ◌+◌, ℤ, pos, ◌≡◌, refl, false, none, some, [], ◌∷◌, arith, if◌then◌else◌, ◌==◌,
}
use csi_hal.Hal.{ChannelCfg, opened, no_cfg}
use csi_hal.Llist.{llist_create}
use csi_hal.Llist.Refine.{IsList, create-IsList}
use csi_hal.Pca.Threads.{no_data, pca_init_thread_info}
use csi_hal.Pca.Stop.{Nodes, created_nodes, no_nodes}
use csi_hal.Simulator.Frames.{Channel}
use csi_hal.Simulator.Channels.{Camera, Calls, framesize, no_slot}
use csi_hal.Simulator.Channels.Operations.{csi_camera_channel_start, csi_camera_channel_stop}
use csi_hal.Simulator.Channels.Balance.{start-stop}
use csi_hal.Simulator.Channels.Undefined.{start-stop_undefined}

abbrev calls : Calls
calls = record {
  fuel = 3;
  consumer_node = 60;
  consumer_create = pos 0;
  dispatcher_create = pos 0;
  pthread_create = pos 0;
  pthread_join = pos 0;
}

abbrev cfg : ChannelCfg
cfg = record no_cfg {
  frm_cnt = 2;
  img_fmt = record { width = 4; height = 4; pix_fmt = 0 };
  status = opened;
}

abbrev channel : Channel
channel = record { cfg = cfg; slots = no_slot ∷ no_slot ∷ [] }

-- The dispatcher as it was created, at 40
abbrev nodes : Nodes
nodes = created_nodes 40

consumers-IsList : IsList nodes.consumers nodes.consumer_list []
unfolding created_nodes
consumers-IsList =
    create-IsList 40 (no_nodes (record { thread_info = pca_init_thread_info; data_type = pos 0 }))
      refl

items-IsList : IsList nodes.items nodes.data_free_list []
unfolding created_nodes
items-IsList =
    create-IsList 40 (no_nodes (record { data_info = no_data; reference_count = 0 })) refl

abbrev camera : Camera
camera = record {
  channels = channel ∷ [];
  heap = λ a. if a == 50 then some 8 else none;
  producing = false;
  frame_csem = 0;
  dispatcher = some (some nodes);
}

abbrev malloc : ℕ → ℕ
malloc i = i + 100

start-stop_example :
    (r r' : ℤ) × (c₁ c₂ : Camera) × (csi_camera_channel_start calls malloc (pos 4) 0 camera
      ≡ some (r, c₁))
    × (csi_camera_channel_stop calls 0 c₁ ≡ some (r', c₂))
    × ((a : ℕ) → c₂.heap a ≡ camera.heap a)
unfolding framesize
start-stop_example =
    start-stop calls calls malloc (pos 4) 0 24 camera channel refl refl (omega arith)
      (refl, refl, (refl, refl, tt)) nodes refl 2 refl refl consumers-IsList items-IsList

start-stop_undefined_example :
    (c₁ : Camera) × (csi_camera_channel_start calls malloc (pos 0) 0 camera ≡ some (pos 0, c₁))
    × (csi_camera_channel_stop calls 0 c₁ ≡ none)
unfolding created_nodes llist_create
start-stop_undefined_example =
    start-stop_undefined calls calls malloc (pos 0) 0 2 camera channel nodes [] [] refl
      (omega arith) refl consumers-IsList items-IsList refl refl refl refl refl refl refl
