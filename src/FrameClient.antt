-- ===== src/FrameClient.antt =====
-- The event loop of examples/camera/camera_demo1.c, on the frames of the simulated camera: what the
-- client does with an event. The picture that it displays is named by the address of its buffer.
pub mod Ready
pub mod Showing
pub mod Drains
mod Tests
use csi_hal.Prelude.{
  ℕ, zero, suc, ℤ, pos, eq_int, ◌||◌, ◌&&◌, Option, none, some, List, [], ◌∷◌, if◌then◌else◌, ◌==◌,
  ◌>>=◌,
}
use csi_hal.Hal.{Event}
use csi_hal.Simulator.Frames.{
  Frame, Channel, csi_camera_get_frame_count, csi_camera_get_frame, csi_camera_put_frame,
}

-- CSI_CAMERA_EVENT_TYPE_CAMERA, CSI_CAMERA_EVENT_TYPE_CHANNEL0, CSI_CAMERA_CHANNEL_EVENT_FRAME_READY
abbrev pub of_camera : ℤ
of_camera = pos 0

abbrev pub of_channel0 : ℤ
of_channel0 = pos 1

abbrev pub frame_ready_event : ℕ
frame_ready_event = 1

module _ (image_size : Frame → ℕ) where
  -- One frame: it is read, displayed and put back. The codes of the calls are not looked at.
  unfoldable pub show_frame : List Channel → Frame → Option (List Channel × Frame)
  show_frame channels frame = do
    (ret, read, taken) ← csi_camera_get_frame image_size channels (pos 0) (some frame)
    shown ← read
    (code, left) ← csi_camera_put_frame taken shown
    some (left, shown)

  -- The loop over the frames that were counted, with the buffers that were displayed in order
  unfoldable pub show_frames : ℕ → List Channel → Frame → Option (List Channel × Frame × List ℕ)
  unfolding show_frame
  show_frames zero channels frame = some (channels, frame, [])
  show_frames (suc n) channels frame = do
    (left, shown) ← show_frame channels frame
    (end, last, buffers) ← show_frames n left shown
    some (end, last, shown.usr_addr.0 ∷ buffers)

  -- The switch on an event. The case of the camera has no `break`, and runs on into the channel's.
  unfoldable pub handle_event :
      Event → List Channel → Frame → Option (List Channel × Frame × List ℕ)
  unfolding show_frames
  handle_event event channels frame =
      let frames =
        csi_camera_get_frame_count channels 0 >>= λ count. show_frames count channels frame in
      if (eq_int event.type of_camera || eq_int event.type of_channel0)
        && (event.id == frame_ready_event)
      then frames
      else some (channels, frame, [])
