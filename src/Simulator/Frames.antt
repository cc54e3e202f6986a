-- ===== src/Simulator/Frames.antt =====
-- Frames of the simulated camera (src/platform/simulator/csi_camera.c): the buffers of each channel,
-- and how a client gets, counts and puts them back. The mutex of a channel makes each loop one step.
pub mod Exchange
mod Tests
use csi_hal.Prelude.{
  ℕ, zero, suc, ◌+◌, ◌*◌, ◌%◌, ℤ, pos, negsuc, minus_one, Bool, true, false, not, ◌&&◌, Option,
  none, some, List, [], ◌∷◌, if◌then◌else◌, ◌==◌, leb, ltb, length, get_elem?, set, u32, to_u32,
}
use csi_hal.Hal.{ImgFormat, ChannelCfg}

-- The place of a buffer in `frame_channel_info_s`: the address of the buffer, 0 for NULL, its status and
-- its count.
pub record Slot : Type 0 where
  pub frame_buf : ℕ
  pub frame_status : ℕ
  pub refcount : ℕ

-- CSI_FRAME_IDLE and CSI_FRAME_READY
abbrev pub frame_idle : ℕ
frame_idle = 1

abbrev pub frame_ready : ℕ
frame_ready = 3

-- `csi_img_s` as `csi_camera_get_frame` fills it, with the two entries of each array
pub record Frame : Type 0 where
  pub type : ℕ
  pub size : ℕ
  pub width : ℕ
  pub height : ℕ
  pub pix_format : ℕ
  pub num_planes : ℕ
  pub strides : ℕ × ℕ
  pub offsets : ℕ × ℕ
  pub usr_addr : ℕ × ℕ

-- A channel: its entry of `g_camera_channel_cfgs` and of `g_frame_channel_infos`.
pub record Channel : Type 0 where
  pub cfg : ChannelCfg
  pub slots : List Slot

-- The loop of `csi_camera_get_frame_count` over the `n` places from `i` on, which are all in the
-- array: a ready frame moves the index once more.
unfoldable pub count_frames : ℕ → ℕ → List Slot → ℕ
count_frames zero i slots = i
count_frames (suc n) i [] = i
count_frames (suc zero) i (s ∷ slots) = if s.frame_status == frame_ready then i + 2 else i + 1
count_frames (suc (suc n)) i (s ∷ []) = i
count_frames (suc (suc n)) i (s ∷ t ∷ slots) =
    let skipped = count_frames n (i + 2) slots in
    let next = count_frames (suc n) (i + 1) (t ∷ slots) in
    if s.frame_status == frame_ready then skipped else next

-- `none` where the loop would leave the array of MAX_FRAME_COUNT places.
unfoldable pub csi_camera_get_frame_count : List Channel → ℕ → Option ℕ
csi_camera_get_frame_count channels chn_id = elim (get_elem? channels chn_id) [
  | none ↦ none
  | some c ↦
      if leb c.cfg.frm_cnt (length c.slots)
      then some (count_frames c.cfg.frm_cnt 0 c.slots)
      else none
]

-- The search of `csi_camera_get_frame` among the first `n` places: the buffer of the first ready frame,
-- and the places with its count set to 0.
unfoldable pub take_ready : ℕ → List Slot → Option (ℕ × List Slot)
take_ready zero slots = none
take_ready (suc n) [] = none
take_ready (suc n) (s ∷ slots) =
    let rest = take_ready n slots in
    if s.frame_status == frame_ready
    then some (s.frame_buf, record s { refcount = 0 } ∷ slots)
    else elim rest [ none ↦ none | some (buf, slots') ↦ some (buf, s ∷ slots') ]

-- What it writes to the frame before the search: CSI_IMG_TYPE_UMALLOC is 3, CSI_IMAGE_I420_PLANES 2.
-- The size is OpenCV's.
abbrev pub describe : (Frame → ℕ) → ChannelCfg → Frame → Frame
describe image_size cfg frame =
    let f = record frame {
      type = 3;
      width = cfg.img_fmt.width;
      height = cfg.img_fmt.height;
      pix_format = cfg.img_fmt.pix_fmt;
    } in
    record f {
      size = image_size f;
      num_planes = 2;
      strides = (f.width, f.width);
      offsets = (0, f.width * f.height % u32);
    }

module _ (camera_image_size_opencv : Frame → ℕ) where
  -- On the channel itself: `none` where the search would leave the array.
  unfoldable pub get_from : Channel → Frame → Option (ℤ × Frame × Channel)
  get_from c frame =
      let f = describe camera_image_size_opencv c.cfg frame in
      let result : ℤ × Frame × Channel = elim (take_ready c.cfg.frm_cnt c.slots) [
        | none ↦ (minus_one, f, c)
        | some (buf, slots) ↦ (pos 0, record f { usr_addr = (buf, 0) }, record c { slots = slots })
      ] in
      if leb c.cfg.frm_cnt (length c.slots) then some result else none

  -- The code, the frame and the channels.
  unfoldable pub csi_camera_get_frame :
      List Channel → ℤ → Option Frame → Option (ℤ × Option Frame × List Channel)
  unfolding get_from
  csi_camera_get_frame channels chn_id none = some (minus_one, none, channels)
  csi_camera_get_frame channels (negsuc n) (some frame) = some (minus_one, some frame, channels)
  csi_camera_get_frame channels (pos id) (some frame) =
      let found : Option (ℤ × Option Frame × List Channel) = elim (get_elem? channels id) [
        | none ↦ none
        | some c ↦ elim (get_from c frame) [
          | none ↦ none
          | some (ret, f, c') ↦ some (ret, some f, set channels id c')
        ]
      ] in
      if ltb 2 id then some (minus_one, some frame, channels) else found

-- The inner loop of `csi_camera_put_frame`: the first `n` places.
unfoldable pub release : ℕ → ℕ → List Slot → List Slot
release buf zero slots = slots
release buf (suc n) [] = []
release buf (suc n) (s ∷ slots) =
    let rest = release buf n slots in
    (if buf == s.frame_buf then record s { frame_status = frame_idle } else s) ∷ rest

unfoldable pub release_all : ℕ → List Channel → List Channel
release_all buf [] = []
release_all buf (c ∷ channels) =
    record c { slots = release buf c.cfg.frm_cnt c.slots } ∷ release_all buf channels

-- Whether the loops stay inside the arrays.
unfoldable pub all_fit : List Channel → Bool
all_fit [] = true
all_fit (c ∷ channels) = leb c.cfg.frm_cnt (length c.slots) && all_fit channels

-- Only frames of CSI_IMG_TYPE_UMALLOC are taken back.
unfoldable pub csi_camera_put_frame : List Channel → Frame → Option (ℤ × List Channel)
csi_camera_put_frame channels frame =
    if not (frame.type == 3)
    then some (minus_one, channels)
    else if all_fit channels
    then some (pos 0, release_all frame.usr_addr.0 channels)
    else none
