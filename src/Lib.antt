-- ===== src/Lib.antt =====
-- Verification of csi_hal, the camera HAL of the XuanTie platforms: the library that applications
-- link against, and the helpers that it shares with the platforms.
--
-- The parts and their files:
--   * `Prelude`: numbers, lists, 32-bit words and integers that all parts share.
--   * `Hal`: the calls and structs of include/hal/csi_camera.h as a record that a platform fills in.
--     The camera manager is a client of it and calls nothing else of a platform.
--   * `CameraManager`: src/lib_camera/camera_manager.c over that record. `Cams` is `cams_t`; each
--     operation is the function of the same name, which takes the session pointer (`none` is NULL)
--     and the state outside, and returns the C code with both. `Device`, `Actions`, `Channel` and
--     `Events` are the operations, `Lifecycle` the calls as one type with their state machine. The
--     event thread is a function of what it sees at each of its turns.
--   * `Ringbuffer`: src/common/ringbuffer.c, with a queue as its specification.
--   * `Pca`: src/common/producer_consumer_async.c. Functions have the C names without the leading
--     underscore. The threads are step functions, split at the points where a thread waits; a pass
--     over the consumers, which runs under `consumer_mutex` and holds the `mutex_data` of each
--     consumer that it changes, is one step. The lists of include/common/list.h are sequences there;
--     `Stop`, whose loops free the nodes on which they stand, has them as nodes in memory.
--     `SetUp` is the set-up with all its guards, as `..._guarded`, and a dispatcher's whole life.
--   * `Llist`: src/common/llist.c on a memory of nodes, with the sequence of items as its
--     specification. The simulator keeps its subscriptions and its events in such lists.
--   * `Simulator`: src/platform/simulator/csi_camera.c, the platform that runs on a host, with
--     OpenCV as a parameter. `Device` is the list of cameras, opening, closing and the modes,
--     `Properties` the table of properties, `Subscriptions` and `Events` are the two lists with the
--     semaphore of the events, `Channels` the life of a channel with its buffers on the heap and
--     the nodes of the dispatcher, which are those of `Pca.Stop`, `Producer` the thread that feeds
--     pictures to the dispatcher of `Pca`, `Consumer` the formatting of a picture into a channel's
--     buffers, and `Frames` what a client gets and puts back. `Meta` is
--     src/platform/simulator/csi_camera_frame.c. `Platform` puts the calls together as a `Hal`;
--     `Platform.Session` has the camera manager run on it.
--   * `Display`: examples/camera/camera_frame_display.c, by which the camera demos send their frames to
--     a display process. `Flow` is the client together with that process, which gives back what it has
--     shown in the order that it got it.
--   * `FrameClient`: the event loop of examples/camera/camera_demo1.c as a client of the simulator: what
--     it does with the frames of channel 0 on an event.
--   * `Demo`: examples/camera/camera_demo3.c with param.c and menu_process.c of camera_demo3_srcs, a test
--     tool with menus: `Config` is the file that names them, `Menu` the keys, `Served` both together.
--     `Settings` is the dialog of dialog_camera_property_list.c on the simulated camera: the user's
--     choices are a list, and what the dialog of an item leaves is part of the choice. Windows, texts
--     and the other dialogs are not modelled.
--   * `CameraString`: src/common/camera_string.c, the names of codes and bit masks.
--   * `PlatformSpec`: the tables of src/platform/simulator/csi_camera_platform_spec.c, which the
--     camera manager reads through `Hal`, and of src/lib_camera/camera_app_spec.c.
--
-- Conventions: a number of 32 bits is a natural number, and wraps where the code computes it; a C
-- code is an integer; an access outside memory is `none`, or excluded by a hypothesis of the
-- theorem. All loops are structural recursion over the arrays and lists that the code walks, so
-- nothing needs fuel, but for the walks over linked lists and the client's loop over the
-- properties: a list wants more fuel than it has nodes, that loop one call for each property and one
-- more. What `malloc` gives is an argument.
--
-- Not modelled: the functions of the simulator that only print, the stubs of the other platforms,
-- drivers, OpenCV, logging, the other examples.
pub mod Prelude
pub mod Ringbuffer
pub mod Hal
pub mod CameraManager
pub mod Pca
pub mod Simulator
pub mod CameraString
pub mod PlatformSpec
pub mod Llist
pub mod Display
pub mod Demo
pub mod FrameClient
