-- ===== src/FrameClient/Drains.antt =====
-- The event loop takes every ready frame of the channel, and shows the last one again and again.
use csi_hal.Prelude.{
  ℕ, ◌+◌, ◌≡◌, ◌⊎◌, inl, inr, refl, ◌∙◌, true, ◌&&◌, ◌||◌, eq_int, some, List, [], ◌∷◌, arith, ◌==◌,
}
use csi_hal.Hal.{Event}
use csi_hal.Simulator.Frames.{Frame, Channel, csi_camera_get_frame_count, count_frames, all_fit}
use csi_hal.Simulator.Frames.Exchange.{frame_count-range}
use csi_hal.FrameClient.{handle_event, of_camera, of_channel0, frame_ready_event}
use csi_hal.FrameClient.Ready.{AreDistinct}
use csi_hal.FrameClient.Showing.{
  shows, ready, fit-inside, drop-all, length-ready_bufs-le, show_frames-shows,
}

-- A count of the frames is there, and is enough for those that are ready.
count_is :
    (c : Channel) (others : List Channel)
    → all_fit (c ∷ others) ≡ true
    → (count : ℕ) × (csi_camera_get_frame_count (c ∷ others) 0 ≡ some count)
      × ((count ≡ c.cfg.frm_cnt) ⊎ (count ≡ c.cfg.frm_cnt + 1))
unfolding csi_camera_get_frame_count
count_is c others fit =
    let counted : csi_camera_get_frame_count (c ∷ others) 0
        ≡ some (count_frames c.cfg.frm_cnt 0 c.slots) =
      rw (fit-inside c others fit) refl in
    (
      count_frames c.cfg.frm_cnt 0 c.slots,
      counted,
      frame_count-range (c ∷ others) 0 (count_frames c.cfg.frm_cnt 0 c.slots) c refl counted,
    )

-- The test of an event on its type and id
takes_event :
    (event : Event)
    → (event.type ≡ of_camera) ⊎ (event.type ≡ of_channel0)
    → event.id ≡ frame_ready_event
    → ((eq_int event.type of_camera || eq_int event.type of_channel0)
        && (event.id == frame_ready_event))
      ≡ true
takes_event event (inl e) id = simp (e, id) refl
takes_event event (inr e) id = simp (e, id) refl

-- An event of the camera or of channel 0 with the id of a ready frame, on channels inside their arrays
-- where the ready frames of channel 0 have buffers of their own: the client asks as often as the
-- channel has frames, or once more, whatever number is ready. It shows each ready frame once and in
-- order, then the last of them again until it has asked so often, and leaves none ready.
pub handle_event-drains :
    (image_size : Frame → ℕ) (event : Event) (c : Channel) (others : List Channel) (frame : Frame)
    → (event.type ≡ of_camera) ⊎ (event.type ≡ of_channel0)
    → event.id ≡ frame_ready_event
    → all_fit (c ∷ others) ≡ true
    → AreDistinct (ready c)
    → (count : ℕ) × (c' : Channel) × (others' : List Channel) × (f : Frame) × ((count
          ≡ c.cfg.frm_cnt)
        ⊎ (count ≡ c.cfg.frm_cnt + 1))
      × (handle_event image_size event (c ∷ others) frame
          ≡ some (c' ∷ others', f, shows count (ready c) frame.usr_addr.0))
      × (ready c' ≡ [])
unfolding handle_event
handle_event-drains image_size event c others frame type id fit distinct =
    let (count, counted, range) = count_is c others fit in
    let (c', others', f, shown, left) =
      show_frames-shows image_size count c others frame (ready c) fit refl distinct in
    (
      count,
      c',
      others',
      f,
      range,
      rw (takes_event event type id, counted) shown,
      left
          ∙ drop-all count (ready c)
              (omega (arith, range, length-ready_bufs-le c.cfg.frm_cnt c.slots)),
    )
