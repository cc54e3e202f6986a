-- ===== src/Simulator/Channels/Twice.antt =====
-- A second stop of a channel of the simulated camera (src/platform/simulator/csi_camera.c).
use csi_hal.Prelude.{
  ℕ, zero, suc, ◌≤◌, ℤ, ◌≡◌, inl, inr, ap, sym, ◌∙◌, false, Option, none, some, List, [], ◌∷◌,
  arith, length, get_elem?, ◌==◌, Bool-cases, Option-cases,
}
use csi_hal.Llist.{update}
use csi_hal.Simulator.Frames.{Slot, Channel}
use csi_hal.Simulator.Channels.{Camera, Calls, Heap, framesize, idle_slots, free, free_slots}
use csi_hal.Pca.Stop.{Nodes, pca_dispatcher_stop}
use csi_hal.Simulator.Channels.Operations.{csi_camera_channel_stop}
use csi_hal.Simulator.Channels.Outcome.{stopped}

-- What is free stays free.
free-none :
    (a b : ℕ) (heap heap' : Heap) → heap a ≡ none → free b heap ≡ some heap' → heap' a ≡ none
unfolding free
free-none a b heap heap' gone e = elim (Bool-cases (b == 0)) [
  | inl null ↦
      let same : heap ≡ heap' = let e' = rw null at e in cc in ap (λ h. h a) (sym same) ∙ gone
  | inr some_block ↦ elim (Option-cases (heap b)) [
    | inl nothing ↦ let e' = rw (some_block, nothing) at e in cc
    | inr (size, block) ↦
        let same : update heap b none ≡ heap' = let e' = rw (some_block, block) at e in cc in
        ap (λ h. h a) (sym same) ∙ ground (arith, gone)
  ]
]

free_slots-none :
    (a n : ℕ) (slots : List Slot) (heap heap' : Heap)
    → heap a ≡ none
    → free_slots n slots heap ≡ some heap'
    → heap' a ≡ none
unfolding free_slots
free_slots-none a zero slots heap heap' gone e =
    let same : heap ≡ heap' = cc in ap (λ h. h a) (sym same) ∙ gone
free_slots-none a (suc n) [] heap heap' gone e =
    let same : heap ≡ heap' = cc in ap (λ h. h a) (sym same) ∙ gone
free_slots-none a (suc n) (s ∷ slots) heap heap' gone e =
    elim (Option-cases (free s.frame_buf heap)) [
      | inl stuck ↦ let e' = rw (stuck, free_slots) at e in cc
      | inr (heap₁, freed) ↦
          free_slots-none a n slots heap₁ heap' (free-none a s.frame_buf heap heap₁ gone freed)
            (rw (freed, free_slots) at e)
    ]

free-block :
    (a size : ℕ) (heap : Heap)
    → (a == 0) ≡ false
    → heap a ≡ some size
    → free a heap ≡ some (update heap a none)
unfolding free
free-block a size heap some_block block = ground (arith, some_block, block)

free-missing : (a : ℕ) (heap : Heap) → (a == 0) ≡ false → heap a ≡ none → free a heap ≡ none
unfolding free
free-missing a heap some_block gone = ground (arith, some_block, gone)

-- A block that was freed is gone.
free_slots-gone :
    (n : ℕ) (s : Slot) (slots : List Slot) (heap left : Heap)
    → (s.frame_buf == 0) ≡ false
    → free_slots (suc n) (s ∷ slots) heap ≡ some left
    → left s.frame_buf ≡ none
unfolding free_slots
free_slots-gone n s slots heap left some_block e = elim (Option-cases (heap s.frame_buf)) [
  | inl nothing ↦
      let e' = rw (free-missing s.frame_buf heap some_block nothing, free_slots) at e in cc
  | inr (size, block) ↦
      free_slots-none s.frame_buf n slots (update heap s.frame_buf none) left (ground arith)
        (rw (free-block s.frame_buf size heap some_block block, free_slots) at e)
]

free_slots-stuck :
    (n : ℕ) (s : Slot) (slots : List Slot) (heap : Heap)
    → (s.frame_buf == 0) ≡ false
    → heap s.frame_buf ≡ none
    → free_slots (suc n) (idle_slots (suc n) (s ∷ slots)) heap ≡ none
unfolding free_slots free idle_slots
free_slots-stuck n s slots heap some_block gone = ground (arith, some_block, gone)

-- After a stop that has freed the buffers of a channel, its places still hold their addresses: a second stop
-- of the channel frees a block that is gone, which is undefined.
pub stop-twice :
    (k k' : Calls) (chn size n : ℕ) (c : Camera) (ch : Channel) (s : Slot) (rest : List Slot)
    (left : Heap) (pointer pointer' : Option Nodes) (ret : ℤ)
    → get_elem? c.channels chn ≡ some ch
    → framesize ch.cfg.img_fmt ≡ some size
    → ch.cfg.frm_cnt ≤ length ch.slots
    → ch.cfg.frm_cnt ≡ suc n
    → ch.slots ≡ s ∷ rest
    → (s.frame_buf == 0) ≡ false
    → free_slots ch.cfg.frm_cnt ch.slots c.heap ≡ some left
    → c.dispatcher ≡ some pointer
    → pca_dispatcher_stop k.fuel pointer ≡ some (ret, pointer')
    → (r : ℤ) × (c' : Camera) × (csi_camera_channel_stop k chn c ≡ some (r, c'))
      × (csi_camera_channel_stop k' chn c' ≡ none)
unfolding csi_camera_channel_stop
stop-twice k k' chn size n c ch s rest left pointer pointer' ret at known fits some_frames split
      some_block freed there stops =
    let (r, c', ch', stop, heap, at', (slots, frm_cnt, img_fmt)) =
      stopped k chn size c ch left pointer pointer' ret at known fits freed there stops in
    let gone = free_slots-gone n s rest c.heap left some_block (rw (some_frames, split) at freed) in
    let stuck : free_slots ch'.cfg.frm_cnt ch'.slots c'.heap ≡ none =
      rw (frm_cnt, slots, heap, some_frames, split)
        (free_slots-stuck n s rest left some_block gone) in
    let known' : framesize ch'.cfg.img_fmt ≡ some size = rw img_fmt known in
    (r, c', stop, ground (arith, at', known', stuck))
