-- ===== src/Ringbuffer/Tests.antt =====
-- Runs of the ring buffer, and its theorems at concrete buffers.
use csi_hal.Prelude.{
  ◌≡◌, refl, List, [], ◌∷◌, ◌++◌, none, some, arith, take, drop, add_u32, sub_u32,
}
use csi_hal.Ringbuffer.{Ringbuffer, copy_in, copy_out, ringbuffer_in, ringbuffer_out}
use csi_hal.Ringbuffer.Valid.{IsValid}
use csi_hal.Ringbuffer.Refine.{contents, in_refines, out_refines}
use csi_hal.Ringbuffer.Run.{Call, put, get, reset, run, run_queue, run_refines}

-- Holds 8, then 9, round the end of the array.
abbrev wrapped : Ringbuffer
wrapped = record { buffer = 9 ∷ 0 ∷ 7 ∷ 8 ∷ []; size = 4; write = 1; read = 3; data_len = 2 }

wrapped-IsValid : IsValid wrapped
wrapped-IsValid = ground arith

in_then_out :
    run wrapped (put (1 ∷ 2 ∷ 3 ∷ []) 3 ∷ get (some (0 ∷ 0 ∷ 0 ∷ 0 ∷ 0 ∷ [])) 5 ∷ [])
    ≡ (2, none) ∷ (4, some (8 ∷ 9 ∷ 1 ∷ 2 ∷ 0 ∷ [])) ∷ []
unfolding run ringbuffer_in ringbuffer_out copy_in copy_out add_u32 sub_u32
in_then_out = refl

in_refines_example :
    let (n, r') = ringbuffer_in wrapped (1 ∷ 2 ∷ 3 ∷ []) 3 in
    (n ≡ 2) × (contents r' ≡ (8 ∷ 9 ∷ []) ++ take n (1 ∷ 2 ∷ 3 ∷ [])) × IsValid r' × (r'.size ≡ 4)
in_refines_example = in_refines (1 ∷ 2 ∷ 3 ∷ []) 3 wrapped-IsValid (omega arith)

out_refines_example :
    let (n, out, r') = ringbuffer_out wrapped (some (5 ∷ 5 ∷ 5 ∷ [])) 3 in
    (n ≡ 2)
    × (out ≡ some (take n (8 ∷ 9 ∷ []) ++ drop n (5 ∷ 5 ∷ 5 ∷ [])))
    × (contents r' ≡ drop n (8 ∷ 9 ∷ []))
    × IsValid r'
    × (r'.size ≡ 4)
out_refines_example = out_refines (some (5 ∷ 5 ∷ 5 ∷ [])) 3 wrapped-IsValid (omega arith)

abbrev script : List Call
script = put (1 ∷ 2 ∷ 3 ∷ []) 3 ∷ get none 1 ∷ get (some (0 ∷ 0 ∷ [])) 2 ∷ reset ∷ get none 4 ∷ []

run_refines_example : run wrapped script ≡ run_queue 4 (8 ∷ 9 ∷ []) script
run_refines_example =
    run_refines script wrapped-IsValid (omega arith, (tt, (omega arith, (tt, (tt, tt)))))
