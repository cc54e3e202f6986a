-- ===== src/Hal/Types.antt =====
-- The structs and enums of include/hal/csi_camera.h and csi_frame.h that the camera code uses.
use csi_hal.Prelude.{ℕ, ℤ, pos, Bool, true, false, List}
use Prim.Native.String.{String}

-- `csi_img_format_t`
pub record ImgFormat : Type 0 where
  pub width : ℕ
  pub height : ℕ
  pub pix_fmt : ℕ

-- The values of `csi_pixel_fmt_e` and `csi_img_type_e` that the code tests for
abbrev pub pix_i420 : ℕ
pix_i420 = 0

abbrev pub pix_nv12 : ℕ
pix_nv12 = 1

abbrev pub pix_bgr : ℕ
pix_bgr = 2

abbrev pub pix_raw_8bit : ℕ
pix_raw_8bit = 3

abbrev pub pix_raw_12bit : ℕ
pix_raw_12bit = 5

abbrev pub pix_yuv_semiplanar_420 : ℕ
pix_yuv_semiplanar_420 = 14

abbrev pub img_type_dma_buf : ℕ
img_type_dma_buf = 0

-- `csi_camera_channel_status_e`
pub data ChannelStatus : Type 0 where
  invalid closed opened running exception : ChannelStatus

-- The test `==` on it.
abbrev pub is_status : ChannelStatus → ChannelStatus → Bool
is_status invalid invalid = true
is_status closed closed = true
is_status opened opened = true
is_status running running = true
is_status exception exception = true
is_status _ _ = false

-- `csi_camera_channel_cfg_s`
pub record ChannelCfg : Type 0 where
  pub chn_id : ℤ
  pub capture_type : ℕ
  pub frm_cnt : ℕ
  pub img_fmt : ImgFormat
  pub img_type : ℕ
  pub meta_fields : ℕ
  pub status : ChannelStatus

-- `csi_camera_info_s`, `csi_camera_infos_s` (its `count` is a field of its own: the code reads it
-- apart from the array)
pub record CameraInfo : Type 0 where
  pub camera_name : String
  pub device_name : String
  pub bus_info : String
  pub capabilities : ℕ

pub record Infos : Type 0 where
  pub count : ℕ
  pub info : List CameraInfo

-- `csi_camera_modes_s`
pub record Mode : Type 0 where
  pub mode_id : ℤ
  pub description : String

pub record Modes : Type 0 where
  pub count : ℤ
  pub modes : List Mode

-- `csi_camera_mode_cfg_s`: the two file names are NULL in all that the code builds.
pub record ModeCfg : Type 0 where
  pub mode_id : ℤ

-- `csi_camera_event_subscription_s`
pub record Subscription : Type 0 where
  pub type : ℤ
  pub id : ℕ

-- `csi_camera_event_s`, but for the time stamp, which no code here reads
pub record Event : Type 0 where
  pub type : ℤ
  pub id : ℕ

-- `CSI_CAMERA_CHANNEL_MAX_COUNT`, the last value of `csi_camera_channel_id_e`
abbrev pub channel_max_count : ℕ
channel_max_count = 8

-- `CSI_CAMERA_EVENT_MAX_COUNT` and `CSI_CAMERA_CHANNEL_EVENT_MAX_COUNT`
abbrev pub event_max_count : ℕ
event_max_count = 32

-- A configuration of zero bytes, as `memset` leaves it.
abbrev pub no_cfg : ChannelCfg
no_cfg = record {
  chn_id = pos 0;
  capture_type = 0;
  frm_cnt = 0;
  img_fmt = record { width = 0; height = 0; pix_fmt = 0 };
  img_type = 0;
  meta_fields = 0;
  status = closed;
}
