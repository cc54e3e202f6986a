-- ===== src/Demo.antt =====
-- examples/camera/camera_demo3.c, a test tool with menus: its configuration file
-- (camera_demo3_srcs/param.c) and the keys that walk through the menus. Windows are not modelled.
pub mod Config
pub mod Menu
pub mod Settings
pub mod Served
mod Tests
