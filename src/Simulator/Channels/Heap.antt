-- ===== src/Simulator/Channels/Heap.antt =====
-- The buffers of a channel of the simulated camera on the heap (src/platform/simulator/csi_camera.c).
use csi_hal.Prelude.{
  ℕ, zero, suc, ◌≡◌, ◌≤◌, refl, ap, true, false, none, some, List, [], ◌∷◌, arith, length,
  if◌then◌else◌, ◌==◌, Bool-cases, Option-cases, inl, inr,
}
use csi_hal.Llist.{update}
use csi_hal.Llist.Chain.{has, Distinct, has-apart}
use csi_hal.Simulator.Frames.{Slot}
use csi_hal.Simulator.Channels.{Heap, idle_slots, alloc_slots, free, free_slots}

-- The addresses in the first `n` places
abbrev pub bufs : ℕ → List Slot → List ℕ
bufs zero slots = []
bufs (suc n) [] = []
bufs (suc n) (s ∷ slots) = s.frame_buf ∷ bufs n slots

-- What `malloc` promises: each block is new and there is one.
abbrev pub GivesNew : (ℕ → ℕ) → ℕ → ℕ → ℕ → Heap → Type 0
GivesNew malloc size i zero heap = Unit {0}
GivesNew malloc size i (suc n) heap =
    ((malloc i == 0) ≡ false)
    × (heap (malloc i) ≡ none)
    × GivesNew malloc size (suc i) n (update heap (malloc i) (some size))

-- All blocks at these addresses have the size.
abbrev pub AllBlocks : ℕ → List ℕ → Heap → Type 0
AllBlocks size [] heap = Unit {0}
AllBlocks size (a ∷ list) heap =
    (heap a ≡ some size) × ((a == 0) ≡ false) × AllBlocks size list heap

module _ (malloc : ℕ → ℕ) (size : ℕ) where
  pub alloc-heap :
      (i n : ℕ) (slots : List Slot) (heap : Heap) (a : ℕ)
      → GivesNew malloc size i n heap
      → n ≤ length slots
      → (alloc_slots malloc size i n slots heap).1 a
        ≡ (if has a (bufs n (alloc_slots malloc size i n slots heap).0) then some size else heap a)
  unfolding alloc_slots
  alloc-heap i zero slots heap a new fits = refl
  alloc-heap i (suc n) [] heap a new fits = absurd (omega arith)
  alloc-heap i (suc n) (s ∷ slots) heap a (some_block, free_here, new) fits =
      let rest =
        alloc-heap (suc i) n slots (update heap (malloc i) (some size)) a new (omega arith) in
      rw some_block (ground (arith, rest))

  -- A block that there was is not given again.
  alloc-away :
      (i n : ℕ) (slots : List Slot) (heap : Heap) (a b : ℕ)
      → GivesNew malloc size i n heap
      → heap a ≡ some b
      → has a (bufs n (alloc_slots malloc size i n slots heap).0) ≡ false
  unfolding alloc_slots
  alloc-away i zero slots heap a b new there = refl
  alloc-away i (suc n) [] heap a b new there = refl
  alloc-away i (suc n) (s ∷ slots) heap a b (some_block, free_here, new) there =
      let other : (a == malloc i) ≡ false = elim (Bool-cases (a == malloc i)) [
        | inl same ↦ let e : a ≡ malloc i = ground arith in let there' = rw e at there in cc
        | inr apart ↦ apart
      ] in
      rw (some_block, other)
        (alloc-away (suc i) n slots (update heap (malloc i) (some size)) a b new (rw other there))

  pub alloc-new :
      (n : ℕ) (slots : List Slot) (heap : Heap) (a : ℕ)
      → GivesNew malloc size 0 n heap
      → has a (bufs n (alloc_slots malloc size 0 n slots heap).0) ≡ true
      → heap a ≡ none
  alloc-new n slots heap a new h = elim (Option-cases (heap a)) [
    | inl free_here ↦ free_here
    | inr (b, there) ↦ let out = alloc-away 0 n slots heap a b new there in cc
  ]

  pub alloc-Distinct :
      (i n : ℕ) (slots : List Slot) (heap : Heap)
      → GivesNew malloc size i n heap
      → Distinct (bufs n (alloc_slots malloc size i n slots heap).0)
  unfolding alloc_slots
  alloc-Distinct i zero slots heap new = tt
  alloc-Distinct i (suc n) [] heap new = tt
  alloc-Distinct i (suc n) (s ∷ slots) heap (some_block, free_here, new) = rw some_block (
    alloc-away (suc i) n slots (update heap (malloc i) (some size)) (malloc i) size new
        (ground arith),
    alloc-Distinct (suc i) n slots (update heap (malloc i) (some size)) new,
  )

  pub alloc-bufs :
      (i n : ℕ) (slots : List Slot) (heap : Heap)
      → GivesNew malloc size i n heap
      → has 0 (bufs n (alloc_slots malloc size i n slots heap).0) ≡ false
  unfolding alloc_slots
  alloc-bufs i zero slots heap new = refl
  alloc-bufs i (suc n) [] heap new = refl
  alloc-bufs i (suc n) (s ∷ slots) heap (some_block, free_here, new) = rw some_block (
      ground
        (arith, some_block, alloc-bufs (suc i) n slots (update heap (malloc i) (some size)) new))

-- Freeing different blocks that are all there succeeds, and takes these and no others from the heap.
pub free_slots-taken :
    (n : ℕ) (slots : List Slot) (heap : Heap)
    → Distinct (bufs n slots)
    → has 0 (bufs n slots) ≡ false
    → ((a : ℕ) → has a (bufs n slots) ≡ true → (b : ℕ) × (heap a ≡ some b))
    → (heap' : Heap) × (free_slots n slots heap ≡ some heap')
      × ((a : ℕ) → heap' a ≡ (if has a (bufs n slots) then none else heap a))
unfolding free_slots free
free_slots-taken zero slots heap d nonzero there = (heap, refl, λ a. refl)
free_slots-taken (suc n) [] heap d nonzero there = (heap, refl, λ a. refl)
free_slots-taken (suc n) (s ∷ slots) heap (out, d) nonzero there =
    let (b, block) = there s.frame_buf (ground arith) in
    let some_block : (s.frame_buf == 0) ≡ false = ground arith in
    let (heap', done, taken) =
      free_slots-taken n slots (update heap s.frame_buf none) d (ground arith) (λ a h.
        let (b', at) = there a (ground arith) in
        (b', ground (arith, has-apart (bufs n slots) s.frame_buf a out h, at))) in
    (heap', ground (arith, some_block, block, done), λ a. ground (arith, taken a))

-- The buffers keep their places when the places become idle.
pub bufs-idle : (n m : ℕ) (slots : List Slot) → bufs n (idle_slots m slots) ≡ bufs n slots
unfolding idle_slots
bufs-idle zero m slots = refl
bufs-idle (suc n) zero slots = refl
bufs-idle (suc n) (suc m) [] = refl
bufs-idle (suc n) (suc m) (s ∷ slots) = ap (λ l. s.frame_buf ∷ l) (bufs-idle n m slots)
