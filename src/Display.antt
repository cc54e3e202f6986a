-- ===== src/Display.antt =====
-- examples/camera/camera_frame_display.c: a client sends its frames to a display process, over the
-- `process_linker` library and memory of `video_mem`. What these libraries answer are arguments.
-- Sums of `int` stay below 2 ^ 31 here: the code has no defined result beyond.
pub mod State
pub mod Create
pub mod Window
pub mod Credits
pub mod Flow
pub mod Starving
pub mod Rows
pub mod Picture
pub mod Ready
mod Tests
use csi_hal.Prelude.{
  ℕ, zero, suc, ◌+◌, ◌-◌, ◌*◌, ◌%◌, ◌^◌, min, ℤ, pos, negsuc, eq_int, Bool, true, false, not, ◌&&◌,
  ◌||◌, Option, none, some, List, [], ◌∷◌, if◌then◌else◌, ◌==◌, ltb, leb, ◌>>=◌, add_u32, length,
  get_elem?, set, take, drop, write_at,
}
use csi_hal.Hal.{
  pix_nv12, pix_bgr, pix_raw_8bit, pix_raw_12bit, pix_yuv_semiplanar_420, img_type_dma_buf,
}
use csi_hal.Display.State.{
  num_of_buffers, PictureBuffer, Context, Frame, Layout, raw, yuv, rgb, Packet, Desc, message,
  other,
}

abbrev pub sign_bit : ℕ
sign_bit = 2 ^ 31

-- The bits of `ret` after one message. `exit_code` is PLINK_EXIT_CODE.
unfoldable pub count_message : ℤ → ℤ → ℕ → ℕ
count_message exit_code v ret =
    if eq_int v exit_code
    then if ltb ret sign_bit then ret + sign_bit else ret
    else elim v [ pos n ↦ add_u32 ret 1 | negsuc n ↦ ret ]

-- The loop of `get_buffer_count` from `ret` on. Its result is an `int`, read here as its bits.
unfoldable pub get_buffer_count : ℤ → List Desc → ℕ → ℕ
get_buffer_count exit_code [] ret = ret
get_buffer_count exit_code (other ∷ list) ret = get_buffer_count exit_code list ret
get_buffer_count exit_code (message v ∷ list) ret =
    get_buffer_count exit_code list (count_message exit_code v ret)

-- One PLINK_wait that returned PLINK_STATUS_OK: whether PLINK_recv does, and the packet.
pub record Poll : Type 0 where
  pub received : Bool
  pub list : List Desc

-- The loop that retrieves buffers; it ends with the polls, when PLINK_wait has nothing more.
unfoldable pub retrieve : ℤ → List Poll → Context → Context
retrieve exit_code [] c = c
retrieve exit_code (p ∷ polls) c =
    let count = get_buffer_count exit_code p.list 0 in
    let rest = retrieve exit_code polls (record c { available_bufs = c.available_bufs + count }) in
    if p.received && ltb count sign_bit then rest else record c { exitplink = true }

pub data Way : Type 0 where
  send_raw send_yuv send_bgr : Way

-- The conditions of the branches that send
unfoldable pub way : Context → Frame → Option Way
way c f =
    let ready = not c.exitplink && ltb 0 c.available_bufs && c.connected in
    let dma = f.type == img_type_dma_buf in
    if dma && ready && ((f.pix_format == pix_raw_8bit) || (f.pix_format == pix_raw_12bit))
    then some send_raw
    else if dma && ready && ((f.pix_format == pix_yuv_semiplanar_420) || (f.pix_format == pix_nv12))
    then some send_yuv
    else if ready && (f.pix_format == pix_bgr)
    then some send_bgr
    else none

-- The rows of one plane: memcpy of `w` bytes, `rows` times. A copy outside memory is `none`.
unfoldable pub copy_rows : ℕ → ℕ → ℕ → ℕ → ℕ → ℕ → List ℕ → List ℕ → Option (List ℕ)
copy_rows zero w srcw dsts s d src dst = some dst
copy_rows (suc rows) w srcw dsts s d src dst =
    let rest =
      copy_rows rows w srcw dsts (s + srcw) (d + dsts) src (write_at dst d (take w (drop s src))) in
    if leb (s + w) (length src) && leb (d + w) (length dst) then rest else none

abbrev pub dst_height : ℕ
dst_height = 304

-- The test before the copy of a BGR frame
unfoldable pub fits : Frame → Bool
fits f = (min 300 f.width == 300) && (min dst_height f.height == 176) && (f.width == 304)

-- The three planes of a picture, `w` bytes of each of its `h` rows
unfoldable pub copy_planes : ℕ → ℕ → ℕ → ℕ → List ℕ → List ℕ → Option (List ℕ)
unfolding copy_rows
copy_planes w h srcw srch src dst = do
  blue ← copy_rows h w srcw srcw 0 0 src dst
  green ← copy_rows h w srcw srcw (srcw * srch) (srcw * dst_height) src blue
  copy_rows h w srcw srcw (srcw * srch * 2) (srcw * dst_height * 2) src green

unfoldable pub copy_bgr : Frame → List ℕ → Option (List ℕ)
unfolding copy_planes
copy_bgr f dst =
    copy_planes (min 300 f.width) (min dst_height f.height) f.width f.height f.pixels dst

-- Behind a send with that result: the slot and the credit are spent.
abbrev pub spend : Bool → Context → Context
spend sent c = record c {
  exitplink = c.exitplink || not sent;
  sendid = (c.sendid + 1) % num_of_buffers;
  available_bufs = c.available_bufs - 1;
}

abbrev pub if_sent : Bool → Packet → List Packet
if_sent true p = p ∷ []
if_sent false p = []

-- What is sent of a frame whose memory is in another process: only its description.
abbrev pub describe_frame : Context → Frame → Layout → Packet
describe_frame c f layout = record {
  id = c.sendid + 1;
  fd = f.fd;
  width = f.width;
  height = f.height;
  stride = f.stride;
  layout = layout;
}

abbrev pub bgr_packet : Context → Frame → PictureBuffer → Packet
bgr_packet c f b =
    let plane = f.width * dst_height in
    record {
      id = c.sendid + 1;
      fd = b.fd;
      width = 300;
      height = dst_height;
      stride = f.width;
      layout =
          rgb b.bus_address (add_u32 b.bus_address plane)
            (add_u32 (add_u32 b.bus_address plane) plane);
    }

abbrev pub put_pixels : Context → PictureBuffer → List ℕ → Context
put_pixels c b pixels = record c {
  sendbuffer = set c.sendbuffer c.sendid (record b { pixels = pixels });
}

-- A BGR frame is copied into the buffer of its slot, and that is sent.
unfoldable pub send_copy : Bool → Context → Frame → Option (Context × List Packet)
unfolding copy_bgr
send_copy sent c f = do
  b ← get_elem? c.sendbuffer c.sendid
  pixels ← copy_bgr f b.pixels
  some (spend sent (put_pixels c b pixels), if_sent sent (bgr_packet c f b))

-- One that does not fit is not sent, but spends its slot all the same.
unfoldable pub present_bgr : Bool → Context → Frame → Option (Context × List Packet)
unfolding fits send_copy
present_bgr sent c f = if fits f then send_copy sent c f else some (spend true c, [])

-- The branch that was chosen. `sent` is whether PLINK_send returns PLINK_STATUS_OK.
unfoldable pub present : Bool → Context → Frame → Option Way → Option (Context × List Packet)
unfolding present_bgr
present sent c f none = some (c, [])
present sent c f (some send_raw) = some (spend sent c, if_sent sent (describe_frame c f raw))
present sent c f (some send_yuv) =
    some (spend sent c, if_sent sent (describe_frame c f (yuv f.offset_u f.offset_v)))
present sent c f (some send_bgr) = present_bgr sent c f

-- The context before the branches
unfoldable pub polled : ℤ → List Poll → Context → Context
unfolding retrieve
polled exit_code polls c = if c.connected then retrieve exit_code polls c else c

-- `display_camera_frame`, with the packets that it sent; `none` for a NULL argument.
unfoldable pub display_camera_frame :
    ℤ → List Poll → Bool → Option Context → Option Frame → Option (Option Context × List Packet)
unfolding polled way present
display_camera_frame exit_code polls sent none f = some (none, [])
display_camera_frame exit_code polls sent (some c) none = some (some c, [])
display_camera_frame exit_code polls sent (some c) (some f) =
    let c₁ = polled exit_code polls c in
    let shown = present sent c₁ f (way c₁ f) >>= λ (c₂, packets). some (some c₂, packets) in
    if c.exitplink then some (some c, []) else shown
