-- ===== src/Hal.antt =====
-- The camera HAL as its clients see it: the types of include/hal/csi_camera.h, csi_frame.h and
-- csi_camera_platform_spec.h, and the calls as an interface that a platform fills in. An enum or a
-- bit mask that the code only stores, prints or masks is the number that stands for it.
pub mod Types
pub use Types.{
  ImgFormat, ChannelStatus, invalid, closed, opened, running, exception, is_status, ChannelCfg,
  CameraInfo, Infos, Mode, Modes, ModeCfg, Subscription, Event, channel_max_count, event_max_count,
  no_cfg, pix_i420, pix_nv12, pix_bgr, pix_raw_8bit, pix_raw_12bit, pix_yuv_semiplanar_420,
  img_type_dma_buf,
}
use csi_hal.Prelude.{ℕ, ℤ, List, Option}
use Prim.Native.String.{String}

-- What a platform implements. Each call takes and returns the platform's state `World`, and returns
-- the code with which the C function returns; what goes through a pointer is returned beside it.
-- `Property` and `Description` are the property structs, which the manager passes through.
pub record Hal : Type 1 where
  pub World : Type 0
  pub Property : Type 0
  pub Description : Type 0
  pub csi_camera_query_list : Infos → World → ℤ × Infos × World
  pub csi_camera_open : String → World → ℤ × ℕ × World
  pub csi_camera_close : ℕ → World → ℤ × World
  pub csi_camera_get_modes : ℕ → Modes → World → ℤ × Modes × World
  pub csi_camera_set_mode : ℕ → ModeCfg → World → ℤ × World
  pub csi_camera_query_property : ℕ → Description → World → ℤ × Description × World
  pub csi_camera_set_property : ℕ → List Property → World → ℤ × World
  pub csi_camera_channel_query : ℕ → ChannelCfg → World → ℤ × ChannelCfg × World
  pub csi_camera_channel_open : ℕ → ChannelCfg → World → ℤ × World
  pub csi_camera_channel_close : ℕ → ℕ → World → ℤ × World
  pub csi_camera_channel_start : ℕ → ℕ → World → ℤ × World
  pub csi_camera_channel_stop : ℕ → ℕ → World → ℤ × World
  pub csi_camera_create_event : ℕ → World → ℤ × ℕ × World
  pub csi_camera_destory_event : ℕ → World → ℤ × World
  pub csi_camera_subscribe_event : ℕ → Subscription → World → ℤ × World
  pub csi_camera_unsubscribe_event : ℕ → Subscription → World → ℤ × World
  pub camera_spec_get_enum_array : ℕ → Option (List ℕ)
