-- ===== src/Simulator/Meta.antt =====
-- The meta data of frames, src/platform/simulator/csi_camera_frame.c, with the structs of
-- include/hal/csi_camera_frame.h.
pub mod Lookup
mod Tests
use csi_hal.Prelude.{
  ℕ, zero, suc, ◌+◌, ◌*◌, ℤ, pos, negsuc, minus_one, Option, none, some, List, [], ◌∷◌, replicate,
  if◌then◌else◌, ◌==◌,
}
use csi_hal.Llist.{update}
use csi_hal.Simulator.Channels.{Heap, free}

-- `csi_camrea_meta_unit_s`: the value is the 32 bytes of its union as a number.
pub record MetaUnit : Type 0 where
  pub id : ℕ
  pub type : ℕ
  pub value : ℕ

-- `csi_camera_meta_s`: the address of its units, and what they hold
pub record Meta : Type 0 where
  pub count : ℕ
  pub size : ℕ
  pub units : ℕ
  pub contents : List MetaUnit

-- The sizes of the two structs on a machine of 64 bits
abbrev pub meta_bytes : ℕ
meta_bytes = 24

abbrev pub unit_bytes : ℕ
unit_bytes = 40

-- A unit of zero bytes
abbrev pub no_unit : MetaUnit
no_unit = record { id = 0; type = 0; value = 0 }

-- `address` is what `malloc` gives. The code, the address of the struct and the struct, the size
-- behind the pointer, and the heap.
unfoldable pub csi_camera_frame_alloc_meta :
    ℕ → ℤ → Option (ℕ × Meta) → ℕ → Heap → ℤ × Option (ℕ × Meta) × ℕ × Heap
csi_camera_frame_alloc_meta address (negsuc n) meta meta_data_size heap = (minus_one, meta, 0, heap)
csi_camera_frame_alloc_meta address (pos zero) meta meta_data_size heap = (minus_one, meta, 0, heap)
csi_camera_frame_alloc_meta address (pos (suc n)) meta meta_data_size heap =
    let malloc_size : ℕ = meta_bytes + unit_bytes * suc n in
    let m : Meta = record {
      count = suc n;
      size = unit_bytes * suc n;
      units = address + meta_bytes;
      contents = replicate (suc n) no_unit;
    } in
    if address == 0
    then (minus_one, none, meta_data_size, heap)
    else (pos 0, some (address, m), malloc_size, update heap address (some malloc_size))

-- `none` where the block is gone.
unfoldable pub csi_camera_frame_free_meta : ℕ → Heap → Option (ℤ × Heap)
csi_camera_frame_free_meta meta heap =
    let freed : Option (ℤ × Heap) = elim (free meta heap) [
      | none ↦ none
      | some heap₁ ↦ some (pos 0, heap₁)
    ] in
    if meta == 0 then some (minus_one, heap) else freed

-- The loop over the first `n` units: `none` where it would leave the units.
unfoldable pub find_unit : ℕ → ℕ → List MetaUnit → Option (Option MetaUnit)
find_unit meta_field zero units = some none
find_unit meta_field (suc n) [] = none
find_unit meta_field (suc n) (u ∷ units) =
    let rest = find_unit meta_field n units in if u.id == meta_field then some (some u) else rest

unfoldable pub csi_camera_frame_get_meta_unit : MetaUnit → Meta → ℕ → Option (ℤ × MetaUnit)
unfolding find_unit
csi_camera_frame_get_meta_unit meta_unit meta_data meta_field =
    elim (find_unit meta_field meta_data.count meta_data.contents) [
      | none ↦ none
      | some none ↦ some (minus_one, meta_unit)
      | some (some u) ↦ some (pos 0, u)
    ]
