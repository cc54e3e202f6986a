-- ===== src/Simulator/Channels.antt =====
-- The life of a channel of the simulated camera (src/platform/simulator/csi_camera.c): opening,
-- starting, stopping and closing it, with the buffers that it allocates.
pub mod Operations
pub mod Heap
pub mod Outcome
pub mod Balance
pub mod Twice
pub mod Undefined
mod Tests
use csi_hal.Prelude.{
  ℕ, zero, suc, ◌+◌, ◌*◌, ◌/◌, ℤ, pos, negsuc, minus_one, is_zero, eq_int, Bool, true, false, not,
  ◌||◌, Option, none, some, List, [], ◌∷◌, map, length, leb, ltb, get_elem?, set, if◌then◌else◌,
  ◌==◌,
}
use csi_hal.Hal.{
  pix_i420, pix_nv12, pix_bgr, ImgFormat, ChannelCfg, ChannelStatus, closed, opened, running,
}
use csi_hal.Llist.{update}
use csi_hal.Pca.Stop.{Nodes}
use csi_hal.Simulator.Frames.{Slot, Channel, frame_idle}

-- The blocks that `malloc` gave: the size of each.
abbrev pub Heap : Type 0
Heap = ℕ → Option ℕ

-- The globals, `producing` where `camera_ptid` is not -1. `dispatcher` is what `s_dispatcher` points to:
-- `some none` for NULL, and `none` where it was freed.
pub record Camera : Type 0 where
  pub channels : List Channel
  pub heap : Heap
  pub producing : Bool
  pub frame_csem : ℕ
  pub dispatcher : Option (Option Nodes)

-- What `malloc` and the thread library return: for the node of a consumer, its thread, the dispatcher's
-- thread and the producer's. `fuel` is for the loops over the dispatcher's lists.
pub record Calls : Type 0 where
  pub fuel : ℕ
  pub consumer_node : ℕ
  pub consumer_create : ℤ
  pub dispatcher_create : ℤ
  pub pthread_create : ℤ
  pub pthread_join : ℤ

-- `framesize` of a format; `none` for the formats that are not known. The product is taken not to
-- overflow an `int`.
unfoldable pub framesize : ImgFormat → Option ℕ
framesize f =
    let area : ℕ = f.height * f.width in
    if (f.pix_fmt == pix_i420) || (f.pix_fmt == pix_nv12)
    then some (area * 3 / 2)
    else if f.pix_fmt == pix_bgr
    then some (area * 3)
    else none

unfoldable pub channel_feeddata_thread_run : Calls → Camera → ℤ × Camera
channel_feeddata_thread_run k c =
    (k.pthread_create, if is_zero k.pthread_create then record c { producing = true } else c)

unfoldable pub channel_feeddata_thread_stop : Calls → Camera → ℤ × Camera
channel_feeddata_thread_stop k c =
    (k.pthread_join, if is_zero k.pthread_join then record c { producing = false } else c)

-- The loop that makes the first `n` places idle
unfoldable pub idle_slots : ℕ → List Slot → List Slot
idle_slots zero slots = slots
idle_slots (suc n) [] = []
idle_slots (suc n) (s ∷ slots) =
    record s { frame_status = frame_idle; refcount = 0 } ∷ idle_slots n slots

-- The loops that give the first `n` places a buffer: `malloc i` is the address of the `i`-th, 0 for
-- NULL.
unfoldable pub alloc_slots : (ℕ → ℕ) → ℕ → ℕ → ℕ → List Slot → Heap → List Slot × Heap
alloc_slots malloc size i zero slots heap = (slots, heap)
alloc_slots malloc size i (suc n) [] heap = ([], heap)
alloc_slots malloc size i (suc n) (s ∷ slots) heap =
    let heap₁ : Heap = if malloc i == 0 then heap else update heap (malloc i) (some size) in
    let (slots₁, heap₂) = alloc_slots malloc size (suc i) n slots heap₁ in
    (record s { frame_buf = malloc i } ∷ slots₁, heap₂)

-- `free`: of NULL it does nothing, of no block it is undefined, here `none`.
unfoldable pub free : ℕ → Heap → Option Heap
free a heap =
    if a == 0
    then some heap
    else elim (heap a) [ none ↦ none | some size ↦ some (update heap a none) ]

-- The loops that free the buffers of the first `n` places
unfoldable pub free_slots : ℕ → List Slot → Heap → Option Heap
unfolding free
free_slots zero slots heap = some heap
free_slots (suc n) [] heap = some heap
free_slots (suc n) (s ∷ slots) heap = elim (free s.frame_buf heap) [
  | none ↦ none
  | some heap₁ ↦ free_slots n slots heap₁
]

-- The reset of all places of the three channels
abbrev pub no_slot : Slot
no_slot = record { frame_buf = 0; frame_status = frame_idle; refcount = 0 }

abbrev pub reset_all : List Channel → List Channel
reset_all [] = []
reset_all (c ∷ channels) = record c { slots = map (λ s. no_slot) c.slots } ∷ reset_all channels

abbrev pub with_status : ChannelStatus → Channel → Channel
with_status status c = record c { cfg = record c.cfg { status = status } }
