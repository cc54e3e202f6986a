-- ===== src/Simulator/Consumer.antt =====
-- The consumer of a channel of the simulated camera (src/platform/simulator/csi_camera.c): it formats a
-- picture of the camera into the channel's free buffers. `pixels` has what stands at each address;
-- `format_picture` is csi_camera_opencv_format_picture of OpenCV's glue.
pub mod Filling
pub mod Delivering
mod Tests
use csi_hal.Prelude.{
  ℕ, zero, suc, ℤ, pos, minus_one, Bool, true, false, Option, none, some, List, [], ◌∷◌, length,
  leb, get_elem?, set, if◌then◌else◌, ◌==◌,
}
use csi_hal.Hal.{ImgFormat, Event, Subscription}
use csi_hal.Llist.{Memory, update, llist_find}
use csi_hal.Simulator.Frames.{Slot, Channel, frame_idle, frame_ready}
use csi_hal.Simulator.Subscriptions.{type_is}
use csi_hal.Simulator.Events.{Events, insert_event, post_event}

-- `camera_frame_info_s`
pub record CameraFrame : Type 0 where
  pub frame_bufs : ℕ
  pub frame_status : ℕ

-- The globals that the consumer reads and writes, and its datum.
pub record Globals (Image : Type 0) : Type 0 where
  pub subscriptions : Memory Subscription
  pub events : Events
  pub channels : List Channel
  pub pixels : ℕ → Image
  pub frame : CameraFrame

-- CSI_CAMERA_CHANNEL_EVENT_FRAME_READY
abbrev pub event_frame_ready : ℕ
event_frame_ready = 1

-- The channel whose `frm_cnt` bounds the loop: that of channel 1 counts channel 0's frames.
abbrev pub counted : ℕ → ℕ
counted chn = if chn == 1 then 0 else chn

module _ {Image : Type 0} (format_picture : ImgFormat → Image → Image) where
  -- The loop over the first `n` places: what it leaves in them and in memory, and whether one was
  -- idle.
  unfoldable pub fill : ImgFormat → ℕ → ℕ → List Slot → (ℕ → Image) → List Slot × (ℕ → Image) × Bool
  fill img_fmt source zero slots pixels = (slots, pixels, false)
  fill img_fmt source (suc n) [] pixels = ([], pixels, false)
  fill img_fmt source (suc n) (s ∷ slots) pixels =
      let pixels₁ = update pixels s.frame_buf (format_picture img_fmt (pixels source)) in
      let (slots₁, pixels₂, found) = fill img_fmt source n slots pixels₁ in
      let (slots₂, pixels₃, found₂) = fill img_fmt source n slots pixels in
      if s.frame_status == frame_idle
      then (record s { frame_status = frame_ready } ∷ slots₁, pixels₂, true)
      else (s ∷ slots₂, pixels₃, found₂)

  -- Behind the search for a subscription: channel `c` with the count `n`. `node` is what `malloc`
  -- gives for the event, and `garbage` what stands in the event's `id` where no place is idle.
  unfoldable pub consume :
      (chn n events_head node garbage : ℕ) → Channel → Globals Image → Globals Image
  unfolding fill
  consume chn n events_head node garbage c g =
      let (slots, pixels, found) = fill c.cfg.img_fmt g.frame.frame_bufs n c.slots g.pixels in
      let tmp : Event = record {
        type = pos (suc chn);
        id = if found then event_frame_ready else garbage;
      } in
      record g {
        events = post_event (insert_event events_head node tmp g.events);
        channels = set g.channels chn (record c { slots = slots });
        pixels = pixels;
        frame = record g.frame { frame_status = frame_ready };
      }

  -- `pca_consumer_process_chn0`, `1` and `2`, on the subscriptions at `me`; CSI_CAMERA_EVENT_TYPE_CHANNEL0
  -- is 1. `none` for an access outside the arrays or the list.
  unfoldable pub pca_consumer_process :
      (chn me events_head node fuel garbage : ℕ) → Globals Image → Option (ℤ × Globals Image)
  unfolding consume
  pca_consumer_process chn me events_head node fuel garbage g =
      elim (llist_find (type_is (pos (suc chn))) fuel me g.subscriptions) [
        | none ↦ none
        | some retp ↦
            let processed : Option (ℤ × Globals Image) = elim (get_elem? g.channels (counted chn)) [
              | none ↦ none
              | some counts ↦ elim (get_elem? g.channels chn) [
                | none ↦ none
                | some c ↦
                    if leb counts.cfg.frm_cnt (length c.slots)
                    then some (pos 0, consume chn counts.cfg.frm_cnt events_head node garbage c g)
                    else none
              ]
            ] in
            if retp == 0 then some (minus_one, g) else processed
      ]
