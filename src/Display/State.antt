-- ===== src/Display/State.antt =====
-- The data of examples/camera/camera_frame_display.c: its context, the frames and the packets.
use csi_hal.Prelude.{ℕ, ℤ, Bool, List}

abbrev pub num_of_buffers : ℕ
num_of_buffers = 5

-- `CsiPictureBuffer`, with the memory at its virtual address
pub record PictureBuffer : Type 0 where
  pub bus_address : ℕ
  pub pixels : List ℕ
  pub fd : ℕ

-- `CsiPlinkContext`: of `plink` only whether it is NULL is tested.
pub record Context : Type 0 where
  pub exitplink : Bool
  pub sendbuffer : List PictureBuffer
  pub sendid : ℕ
  pub available_bufs : ℕ
  pub connected : Bool

-- What the display reads of a `csi_frame_s`; `pixels` is the memory at `usr_addr[0]`.
pub record Frame : Type 0 where
  pub type : ℕ
  pub pix_format : ℕ
  pub width : ℕ
  pub height : ℕ
  pub stride : ℕ
  pub fd : ℕ
  pub offset_u : ℕ
  pub offset_v : ℕ
  pub pixels : List ℕ

-- The parts of PlinkRawInfo, PlinkYuvInfo and PlinkRGBInfo that differ
pub data Layout : Type 0 where
  raw : Layout
  yuv : ℕ → ℕ → Layout
  rgb : ℕ → ℕ → ℕ → Layout

-- A packet as it is sent, with the id of its header
pub record Packet : Type 0 where
  pub id : ℕ
  pub fd : ℕ
  pub width : ℕ
  pub height : ℕ
  pub stride : ℕ
  pub layout : Layout

-- A descriptor of a packet that is received: PLINK_TYPE_MESSAGE with its value, or another.
pub data Desc : Type 0 where
  message : ℤ → Desc
  other : Desc
