-- ===== src/CameraManager.antt =====
-- The camera session of src/lib_camera/camera_manager.c over the HAL: the structs of
-- include/lib_camera/camera_manager.h, and the operations in the children. An operation takes the
-- session pointer (`none` is NULL) and the state outside it, and returns its code and both.
pub mod State
pub mod Device
pub mod Actions
pub mod Channel
pub mod Events
pub mod Lifecycle
pub mod Guards
pub mod Opening
pub mod Subscribing
pub mod Waiting
mod Tests
pub use State.{
  CameraState, state_code, EventAction, Cams, Threads, Sys, InfoField, get_info_status,
  set_info_status, camera_session_reset, check_session, accepts, check_state, eperm, Result,
}
