-- ===== src/Simulator.antt =====
-- The simulated platform behind the HAL, src/platform/simulator/csi_camera.c. OpenCV is a parameter.
pub mod Types
pub mod Properties
pub mod Frames
pub mod Events
pub mod Consumer
pub mod Channels
pub mod Device
pub mod Meta
pub mod Platform
pub mod Producer
pub mod Subscriptions
mod Tests
