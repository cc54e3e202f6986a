-- ===== src/Simulator/Meta/Tests.antt =====
-- Meta data of two units, and the theorem applied to them.
use csi_hal.Prelude.{ℕ, ◌+◌, ◌*◌, ◌≤◌, pos, ◌≡◌, refl, none, some, arith, set}
use csi_hal.Simulator.Channels.{Heap}
use csi_hal.Simulator.Meta.{
  MetaUnit, Meta, unit_bytes, no_unit, csi_camera_frame_alloc_meta, csi_camera_frame_free_meta,
  csi_camera_frame_get_meta_unit,
}
use csi_hal.Simulator.Meta.Lookup.{alloc-get_meta_unit}

abbrev empty : Heap
empty a = none

abbrev frame_id : MetaUnit
frame_id = record { id = 4; type = 1; value = 77 }

alloc-get_meta_unit_example :
    (m : Meta) × (size : ℕ) × (heap₁ heap₂ : Heap) × (csi_camera_frame_alloc_meta 100
        (pos 2)
        none
        0
        empty
      ≡ (pos 0, some (100, m), size, heap₁))
    × (m.units + unit_bytes * 1 + unit_bytes ≤ 100 + size)
    × (csi_camera_frame_get_meta_unit no_unit (record m { contents = set m.contents 1 frame_id }) 4
        ≡ some (pos 0, frame_id))
    × (csi_camera_frame_free_meta 100 heap₁ ≡ some (pos 0, heap₂))
    × ((a : ℕ) → heap₂ a ≡ none)
alloc-get_meta_unit_example =
    alloc-get_meta_unit 100 1 1 frame_id no_unit none 0 empty refl refl refl (omega arith)
