-- ===== src/Simulator/Device.antt =====
-- The simulated camera as a device (src/platform/simulator/csi_camera.c): listing, opening and closing
-- it, and its modes.
pub mod Closing
mod Tests
use Prim.Native.String.{String, compare}
use Prim.Native.Nat.{Ordering, bit_or}
use csi_hal.Prelude.{
  ℕ, zero, suc, ◌+◌, ◌*◌, ℤ, pos, negsuc, minus_one, is_zero, eq_int, Bool, true, false, not, ◌&&◌,
  ◌||◌, Option, none, some, List, [], ◌∷◌, map, if◌then◌else◌, ◌==◌, leb, ◌>>=◌,
}
use csi_hal.Hal.{Infos, Modes, ModeCfg, Subscription, Event}
use csi_hal.Llist.{Memory, update, llist_backward, llist_create, llist_insert, llist_destroy}
use csi_hal.Simulator.Frames.{frame_idle}
use csi_hal.Simulator.Consumer.{CameraFrame}
use csi_hal.Simulator.Channels.{Heap, free}

-- CSI_CAMERA_VERSION_MAJOR and CSI_CAMERA_VERSION_MINOR: the version in the struct
unfoldable pub csi_camera_get_version : ℤ × ℕ × ℕ
csi_camera_get_version = (pos 0, 0, 2)

-- CSI_CAMERA_CAP_VIDEO_CAPTURE is 1 and CSI_CAMERA_CAP_META_CAPTURE is 0x00800000.
abbrev pub g_camera_infos : Infos
g_camera_infos = record {
  count = 3;
  info =
      record {
        camera_name = "RGB_Camera";
        device_name = "/dev/video0";
        bus_info = "CSI-MIPI";
        capabilities = 1 + 8388608;
      }
      ∷ record {
        camera_name = "Mono_Camera";
        device_name = "/dev/video1";
        bus_info = "USB";
        capabilities = 1;
      }
      ∷ record {
        camera_name = "fake_Camera";
        device_name = "/dev/fake";
        bus_info = "USB";
        capabilities = 1;
      }
      ∷ [];
}

abbrev pub g_camera_modes : Modes
g_camera_modes = record {
  count = pos 2;
  modes =
      record { mode_id = pos 1; description = "default" }
      ∷ record { mode_id = pos 2; description = "portrait" }
      ∷ [];
}

-- A copy of a table to where the pointer points, -1 for NULL: `csi_camera_query_list` and
-- `csi_camera_get_modes`.
abbrev pub copy_out : {A : Type 0} → A → Option A → ℤ × Option A
copy_out table none = (minus_one, none)
copy_out table (some old) = (pos 0, some table)

unfoldable pub csi_camera_query_list : Option Infos → ℤ × Option Infos
csi_camera_query_list infos = copy_out g_camera_infos infos

unfoldable pub csi_camera_get_modes : Option Modes → ℤ × Option Modes
csi_camera_get_modes modes = copy_out g_camera_modes modes

-- `!strcmp(a, b)`
abbrev pub same_text : String → String → Bool
same_text a b = elim (compare a b) [ Ordering.eq ↦ true | _ ↦ false ]

unfoldable pub getcameraindex : String → ℤ
getcameraindex cam_name =
    if same_text cam_name "/dev/video0"
    then pos 0
    else if same_text cam_name "/dev/video1"
    then pos 1
    else if same_text cam_name "/dev/video2"
    then pos 2
    else if same_text cam_name "/dev/video3"
    then pos 3
    else if same_text cam_name "/dev/fake"
    then pos 4
    else minus_one

-- A list of the platform: its nodes and its head.
pub record Llist (A : Type 0) : Type 0 where
  pub memory : Memory A
  pub head : ℕ

-- The globals of the device: its lists, its frames, the address `s_dispatcher`, and the heap of all else.
pub record Device : Type 0 where
  pub mode_cfg : Llist ModeCfg
  pub subscribe_event : Llist Subscription
  pub event : Llist Event
  pub frames : List CameraFrame
  pub dispatcher : ℕ
  pub heap : Heap

-- A handle is its address and the index in it, 0 for NULL.
abbrev pub Handle : Type 0
Handle = ℕ × ℤ

-- 640 × 480 × 3
abbrev pub frame_bytes : ℕ
frame_bytes = 640 * 480 * 3

-- What `malloc` gives, and `sizeof(pca_dispatcher_info_t)`
pub record Given : Type 0 where
  pub mode_cfg : ℕ
  pub subscribe_event : ℕ
  pub event : ℕ
  pub handle : ℕ
  pub buf : ℕ → ℕ
  pub dispatcher : ℕ
  pub dispatcher_bytes : ℕ

-- The loop that gives each frame a buffer, over the frames from `i` on
unfoldable pub alloc_frames : (ℕ → ℕ) → ℕ → List CameraFrame → Heap → List CameraFrame × Heap
alloc_frames buf i [] heap = ([], heap)
alloc_frames buf i (f ∷ frames) heap =
    let heap₁ : Heap = if buf i == 0 then heap else update heap (buf i) (some frame_bytes) in
    let (frames₁, heap₂) = alloc_frames buf (suc i) frames heap₁ in
    (record { frame_bufs = buf i; frame_status = frame_idle } ∷ frames₁, heap₂)

-- `llist_create` into a global
abbrev pub create_list : {A : Type 0} → ℕ → Llist A → Llist A
create_list me l = record { memory = llist_create me l.memory; head = me }

-- `pca_dispatcher_create(&s_dispatcher, …)`: the block, and where the pointer points. Its code is not read.
abbrev pub create_dispatcher : ℕ → ℕ → Device → Device
create_dispatcher address bytes d =
    if address == 0
    then d
    else record d { dispatcher = address; heap = update d.heap address (some bytes) }

-- `pca_dispatcher_destory(s_dispatcher)`: ERRNO_INVALID_PARAMETER is 1.
abbrev pub destory_dispatcher : ℕ → Heap → Option (ℤ × Heap)
destory_dispatcher address heap =
    if address == 0 then some (pos 1, heap) else free address heap >>= λ heap'. some (pos 0, heap')

-- `camera_open_opencv` is the code of OpenCV's glue. `none` is the handle at NULL, which is written to.
unfoldable pub csi_camera_open :
    (ℤ → ℤ) → Given → String → Device → Option (ℤ × Option Handle × Device)
unfolding alloc_frames getcameraindex
csi_camera_open camera_open_opencv g device_name d =
    let idx = getcameraindex device_name in
    let d₁ = record d { mode_cfg = create_list g.mode_cfg d.mode_cfg } in
    let d₂ = record d₁ { subscribe_event = create_list g.subscribe_event d.subscribe_event } in
    let d₃ = record d₂ { event = create_list g.event d.event } in
    let d₄ = record d₃ { heap = update d.heap g.handle (some 4) } in
    let (frames, heap) = alloc_frames g.buf 0 d.frames d₄.heap in
    if g.mode_cfg == 0
    then some (minus_one, none, d₁)
    else if g.subscribe_event == 0
    then some (minus_one, none, d₂)
    else if g.event == 0
    then some (minus_one, none, d₃)
    else if g.handle == 0
    then none
    else if not (eq_int idx (pos 4)) && not (is_zero (camera_open_opencv idx))
    then some (minus_one, none, d₄)
    else some (
      pos 0,
      some (g.handle, idx),
      create_dispatcher g.dispatcher g.dispatcher_bytes
          (record d₄ { frames = frames; heap = heap }),
    )

-- `llist_destroy` of a global
unfoldable pub destroy_list : {A : Type 0} → ℕ → Llist A → Option (Llist A)
destroy_list fuel l = elim (llist_destroy fuel l.head l.memory) [
  | none ↦ none
  | some m ↦ some (record l { memory = m })
]

-- The loop that frees the buffers of the frames
unfoldable pub free_frames : List CameraFrame → Heap → Option Heap
free_frames [] heap = some heap
free_frames (f ∷ frames) heap =
    elim (if f.frame_bufs == 0 then some heap else free f.frame_bufs heap) [
      | none ↦ none
      | some heap₁ ↦ free_frames frames heap₁
    ]

unfoldable pub csi_camera_close : ℕ → Option Handle → Device → Option (ℤ × Device)
unfolding free_frames destroy_list
csi_camera_close fuel handle d =
    let a : ℕ = elim handle [ none ↦ 0 | some (a, idx) ↦ a ] in
    do
      mode_cfg ← destroy_list fuel d.mode_cfg
      subscribe_event ← destroy_list fuel d.subscribe_event
      event ← destroy_list fuel d.event
      heap ← free a d.heap
      heap' ← free_frames d.frames heap
      (ret, heap'') ← destory_dispatcher d.dispatcher heap'
      some (
        ret,
        record d {
          mode_cfg = mode_cfg;
          subscribe_event = subscribe_event;
          event = event;
          heap = heap'';
        },
      )

-- `id < 1` and `id > count`
abbrev pub below_one : ℤ → Bool
below_one (pos n) = n == 0
below_one (negsuc n) = true

abbrev pub above_count : ℤ → Bool
above_count (pos n) = not (leb n 2)
above_count (negsuc n) = false

-- The list keeps the mode even where OpenCV refuses it. `node` is what `malloc` gives.
unfoldable pub csi_camera_set_mode : (ModeCfg → ℤ) → ℕ → ℤ → Option ModeCfg → Device → ℤ × Device
csi_camera_set_mode camera_set_mode_opencv node idx none d = (minus_one, d)
csi_camera_set_mode camera_set_mode_opencv node idx (some cfg) d =
    let l = d.mode_cfg in
    let d₁ = record d {
      mode_cfg = record l { memory = (llist_insert l.head node cfg llist_backward l.memory).1 };
    } in
    if below_one cfg.mode_id && above_count cfg.mode_id
    then (minus_one, d)
    else if not (eq_int idx (pos 4)) && not (is_zero (camera_set_mode_opencv cfg))
    then (minus_one, d₁)
    else (pos 0, d₁)
