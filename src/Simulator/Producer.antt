-- ===== src/Simulator/Producer.antt =====
-- The producer thread of the simulated camera (src/platform/simulator/csi_camera.c), which feeds its
-- pictures to the dispatcher. `base` is the address of `g_camera_frame_infos`.
pub mod Refill
mod Tests
use csi_hal.Prelude.{
  ℕ, zero, suc, ◌+◌, ◌*◌, ℤ, Option, none, some, List, [], ◌∷◌, get_elem?, if◌then◌else◌, ◌==◌,
  ◌>>=◌,
}
use csi_hal.Llist.{update}
use csi_hal.Pca.State.{DataInfo, Dispatcher}
use csi_hal.Pca.Feed.{pca_feed_dispatcher}
use csi_hal.Simulator.Frames.{frame_idle}
use csi_hal.Simulator.Consumer.{CameraFrame}

pub record Producer (Image : Type 0) : Type 0 where
  pub frames : List CameraFrame
  pub pixels : ℕ → Image
  pub dispatcher : Dispatcher

-- The search for an idle frame, over the frames from `i` on
unfoldable pub first_idle : ℕ → List CameraFrame → Option ℕ
first_idle i [] = none
first_idle i (f ∷ frames) =
    let rest = first_idle (suc i) frames in if f.frame_status == frame_idle then some i else rest

-- The datum of a frame, with `data_consumed_callback`: a `camera_frame_info_s` has 16 bytes.
abbrev pub datum : ℕ → ℕ → DataInfo
datum base i = record { data_ptr = base + 16 * i; length = 4; type = 1; consumed_callback = some 1 }

-- `data_consumed_callback` on the frame `i`
unfoldable pub data_consumed_callback : ℕ → List CameraFrame → List CameraFrame
data_consumed_callback i [] = []
data_consumed_callback zero (f ∷ frames) = record f { frame_status = frame_idle } ∷ frames
data_consumed_callback (suc i) (f ∷ frames) = f ∷ data_consumed_callback i frames

-- The feed of the dispatcher: `none` while the call waits, or without a dispatcher. Its code is only logged.
unfoldable pub feed : DataInfo → Dispatcher → Option Dispatcher
feed d p = elim (pca_feed_dispatcher (some p) (some d)) [ none ↦ none | some (ret, p') ↦ p' ]

-- A turn of `camera_producer_frame` in which the camera shows `picture`
unfoldable pub camera_producer_frame :
    {Image : Type 0} → ℕ → Image → Producer Image → Option (Producer Image)
unfolding first_idle feed
camera_producer_frame base picture st = elim (first_idle 0 st.frames) [
  | none ↦ some st
  | some i ↦ do
    f ← get_elem? st.frames i
    p ← feed (datum base i) st.dispatcher
    some (record st { pixels = update st.pixels f.frame_bufs picture; dispatcher = p })
]
