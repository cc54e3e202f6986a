-- ===== src/Simulator/Meta/Lookup.antt =====
-- Writing and finding meta data (src/platform/simulator/csi_camera_frame.c).
use csi_hal.Prelude.{
  ℕ, zero, suc, ◌+◌, ◌*◌, ◌<◌, ◌≤◌, pos, ◌≡◌, refl, sym, false, Option, none, some, replicate, set,
  arith, ◌==◌, Bool-cases, inl, inr,
}
use csi_hal.Llist.{update}
use csi_hal.Simulator.Channels.{Heap, free}
use csi_hal.Simulator.Meta.{
  MetaUnit, Meta, unit_bytes, meta_bytes, no_unit, csi_camera_frame_alloc_meta,
  csi_camera_frame_free_meta, find_unit, csi_camera_frame_get_meta_unit,
}

find_unit-set :
    (u : MetaUnit) (n i : ℕ)
    → (u.id == 0) ≡ false
    → i < n
    → find_unit u.id n (set (replicate n no_unit) i u) ≡ some (some u)
unfolding find_unit
find_unit-set u zero i named inside = absurd (omega arith)
find_unit-set u (suc n) zero named inside = ground arith
find_unit-set u (suc n) (suc i) named inside =
    ground (arith, find_unit-set u n i named (omega arith))

-- Meta data of `suc n` units, where `malloc` has memory: the call returns 0; each unit lies inside the block whose
-- size it gives; a unit with an id that a client writes at any index is what a search for its id finds; and
-- freeing the meta data puts the heap back, where the block was new.
pub alloc-get_meta_unit :
    (address n i : ℕ) (u old : MetaUnit) (meta : Option (ℕ × Meta)) (meta_data_size : ℕ)
    (heap : Heap)
    → (address == 0) ≡ false
    → heap address ≡ none
    → (u.id == 0) ≡ false
    → i < suc n
    → (m : Meta) × (size : ℕ) × (heap₁ heap₂ : Heap) × (csi_camera_frame_alloc_meta address
          (pos (suc n))
          meta
          meta_data_size
          heap
        ≡ (pos 0, some (address, m), size, heap₁))
      × (m.units + unit_bytes * i + unit_bytes ≤ address + size)
      × (csi_camera_frame_get_meta_unit old (record m { contents = set m.contents i u }) u.id
          ≡ some (pos 0, u))
      × (csi_camera_frame_free_meta address heap₁ ≡ some (pos 0, heap₂))
      × ((a : ℕ) → heap₂ a ≡ heap a)
unfolding csi_camera_frame_alloc_meta csi_camera_frame_get_meta_unit csi_camera_frame_free_meta free
alloc-get_meta_unit address n i u old meta meta_data_size heap some_block new named inside =
    let size : ℕ = meta_bytes + unit_bytes * suc n in
    let heap₁ : Heap = update heap address (some size) in
    (
      record {
        count = suc n;
        size = unit_bytes * suc n;
        units = address + meta_bytes;
        contents = replicate (suc n) no_unit;
      },
      size,
      heap₁,
      update heap₁ address none,
      rw some_block refl,
      omega arith,
      ground (arith, find_unit-set u (suc n) i named inside),
      ground (arith, some_block),
      λ a. elim (Bool-cases (a == address)) [
        | inl same ↦ let e : a ≡ address = ground arith in rw (same, e) (sym new)
        | inr other ↦ rw other refl
      ],
    )
