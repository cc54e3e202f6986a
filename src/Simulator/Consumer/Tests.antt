-- ===== src/Simulator/Consumer/Tests.antt =====
-- A channel of the simulated camera with a picture to deliver, and the theorems applied to it.
use csi_hal.Prelude.{ℕ, ◌+◌, pos, ◌≡◌, refl, false, some, List, [], ◌∷◌, arith, if◌then◌else◌, ◌==◌}
use csi_hal.Hal.{ImgFormat, Event, Subscription, no_cfg}
use csi_hal.Llist.{Memory, llist_backward, llist_create, llist_insert}
use csi_hal.Llist.Refine.{IsList, create-IsList, llist_insert-insert_by}
use csi_hal.Simulator.Frames.{Slot, Channel, Frame, frame_idle, csi_camera_get_frame}
use csi_hal.Simulator.Consumer.{Globals, pca_consumer_process}
use csi_hal.Simulator.Consumer.Delivering.{Consumed, consumer_process-Consumed, picture-delivered}

abbrev channel0 : Subscription
channel0 = record { type = pos 1; id = 1 }

abbrev memory : Memory Subscription
memory = record { live = λ p. false; prev = λ p. 0; next = λ p. 0; item = λ p. channel0 }

abbrev no_event : Event
no_event = record { type = pos 0; id = 0 }

abbrev subscriptions : Memory Subscription
subscriptions = (llist_insert 10 20 channel0 llist_backward (llist_create 10 memory)).1

subscriptions-IsList : IsList subscriptions 10 (channel0 ∷ [])
unfolding llist_create
subscriptions-IsList =
    (llist_insert-insert_by 20 channel0 (create-IsList 10 memory refl) refl refl llist_backward
      refl).1

abbrev place : Slot
place = record { frame_buf = 100; frame_status = frame_idle; refcount = 0 }

abbrev channel : Channel
channel = record { cfg = record no_cfg { frm_cnt = 1 }; slots = place ∷ [] }

-- The camera's picture is 7, in the buffer 50.
abbrev globals : Globals ℕ
globals = record {
  subscriptions = subscriptions;
  events = record {
    memory =
        llist_create 11
          (record { live = λ p. false; prev = λ p. 0; next = λ p. 0; item = λ p. no_event });
    frame_csem = 0;
  };
  channels = channel ∷ [];
  pixels = λ a. if a == 50 then 7 else 0;
  frame = record { frame_bufs = 50; frame_status = 2 };
}

abbrev format : ImgFormat → ℕ → ℕ
format img_fmt p = p + 1

abbrev blank : Frame
blank = record {
  type = 0;
  size = 0;
  width = 0;
  height = 0;
  pix_format = 0;
  num_planes = 0;
  strides = (0, 0);
  offsets = (0, 0);
  usr_addr = (0, 0);
}

consumer_process-Consumed_example :
    (g' : Globals ℕ) × (pca_consumer_process format 0 10 11 30 2 9 globals ≡ some (pos 0, g'))
    × Consumed format 0 1 channel globals g'
consumer_process-Consumed_example =
    consumer_process-Consumed format 0 10 11 30 2 9 globals (channel0 ∷ []) channel channel
      subscriptions-IsList (omega arith) refl refl (omega arith) (refl, tt) refl

picture-delivered_example :
    (g' : Globals ℕ) × (f : Frame) × (channels' : List Channel) × (pca_consumer_process format 0 10
        11 30 2 9 globals
      ≡ some (pos 0, g'))
    × (csi_camera_get_frame (λ frame. 0) g'.channels (pos 0) (some blank)
        ≡ some (pos 0, some f, channels'))
    × (g'.pixels f.usr_addr.0 ≡ format no_cfg.img_fmt 7)
picture-delivered_example =
    picture-delivered format 0 10 11 30 2 9 globals (channel0 ∷ []) channel channel
      subscriptions-IsList (omega arith) refl refl (omega arith) (refl, tt) refl (λ frame. 0) blank
      0 0 place [] refl refl refl refl refl refl (omega arith)
