-- ===== src/FrameClient/Tests.antt =====
-- A channel of three frames of which two are ready, and an event for it.
use csi_hal.Prelude.{ℕ, ◌+◌, pos, some, ◌≡◌, ◌⊎◌, inl, refl, List, [], ◌∷◌, arith}
use csi_hal.Hal.{Event, no_cfg}
use csi_hal.Simulator.Frames.{Frame, Channel, all_fit}
use csi_hal.FrameClient.{handle_event}
use csi_hal.FrameClient.Drains.{handle_event-drains}
use csi_hal.FrameClient.Showing.{ready, shows}

abbrev channel : Channel
channel = record {
  cfg = record no_cfg { frm_cnt = 3 };
  slots =
      record { frame_buf = 11; frame_status = 3; refcount = 1 }
      ∷ record { frame_buf = 12; frame_status = 1; refcount = 0 }
      ∷ record { frame_buf = 13; frame_status = 3; refcount = 0 }
      ∷ [];
}

abbrev blank : Frame
blank = record {
  type = 0;
  size = 0;
  width = 0;
  height = 0;
  pix_format = 0;
  num_planes = 0;
  strides = (0, 0);
  offsets = (0, 0);
  usr_addr = (0, 0);
}

-- A warning of the camera: its id is that of a ready frame.
abbrev warning : Event
warning = record { type = pos 0; id = 1 }

handle_event-drains_example :
    (count : ℕ) × (c' : Channel) × (others' : List Channel) × (f : Frame) × ((count ≡ 3)
      ⊎ (count ≡ 3 + 1))
    × (handle_event (λ f. 0) warning (channel ∷ []) blank
        ≡ some (c' ∷ others', f, shows count (ready channel) 0))
    × (ready c' ≡ [])
unfolding all_fit
handle_event-drains_example =
    handle_event-drains (λ f. 0) warning channel [] blank (inl refl) refl refl
      ((omega arith, tt), (tt, tt))
