-- ===== src/Simulator/Channels/Balance.antt =====
-- A stop gives back what the start of a channel allocated (src/platform/simulator/csi_camera.c).
use csi_hal.Prelude.{
  ℕ, ◌≤◌, ℤ, pos, eq_int, suc, true, false, [], ◌≡◌, inl, inr, refl, ap, sym, ◌∙◌, Option, none,
  some, List, arith, length, length-set, get_elem?, get_elem?-set_self, get_elem?-inside, set,
  Bool-cases,
}
use csi_hal.Llist.Chain.{has}
use csi_hal.Llist.Refine.{IsList}
use csi_hal.Pca.Stop.{Nodes, pca_dispatcher_stop}
use csi_hal.Pca.Stop.Freed.{dispatcher_stop-defined}
use csi_hal.Simulator.Frames.{Slot, Channel}
use csi_hal.Simulator.Channels.{Camera, Calls, Heap, framesize, idle_slots, alloc_slots, free_slots}
use csi_hal.Simulator.Channels.Operations.{
  add_consumer, start_slots, csi_camera_channel_start, csi_camera_channel_stop,
}
use csi_hal.Simulator.Channels.Heap.{
  bufs, GivesNew, alloc-heap, alloc-new, alloc-Distinct, alloc-bufs, free_slots-taken,
}
use csi_hal.Simulator.Channels.Outcome.{length-idle, length-alloc, Like, launch-Like, stopped}

module _ (k k' : Calls) (malloc : ℕ → ℕ) (idx : ℤ) (chn size : ℕ) (c : Camera) (ch : Channel)
    (at : get_elem? c.channels chn ≡ some ch) (known : framesize ch.cfg.img_fmt ≡ some size)
    (fits : ch.cfg.frm_cnt ≤ length ch.slots) (new : GivesNew malloc size 0 ch.cfg.frm_cnt c.heap)
    (d : Nodes) (there : c.dispatcher ≡ some (some d)) where
  -- What a start leaves of a channel with a known format.
  started :
      (r : ℤ) × (c₁ : Camera) × (ch₁ : Channel) × (csi_camera_channel_start k malloc idx chn c
        ≡ some (r, c₁))
      × (get_elem? c₁.channels chn ≡ some ch₁)
      × Like (record ch { slots = (start_slots malloc ch c.heap).0 }) ch₁
      × (c₁.heap ≡ (start_slots malloc ch c.heap).1)
      × (c₁.dispatcher ≡ some (add_consumer k idx (some d)).1)
  unfolding csi_camera_channel_start
  started =
      let ch₀ : Channel = record ch { slots = (start_slots malloc ch c.heap).0 } in
      let c₀ : Camera = record c {
        channels = set c.channels chn ch₀;
        heap = (start_slots malloc ch c.heap).1;
        frame_csem = 0;
      } in
      let inside = get_elem?-inside c.channels chn ch at in
      let (r, c₁, ch₁, launched, at₁, like, heap, pointer) =
        launch-Like k idx chn ch₀ c₀ (some d) (get_elem?-set_self c.channels chn ch₀ inside)
          (omega (arith, length-set c.channels chn ch₀)) there in
      (r, c₁, ch₁, ground (arith, at, fits, launched), at₁, like, heap, pointer)

  slots_of : Option ℕ → List Slot × Heap
  slots_of o = elim o [
    | none ↦ (idle_slots ch.cfg.frm_cnt ch.slots, c.heap)
    | some size ↦
        alloc_slots malloc size 0 ch.cfg.frm_cnt (idle_slots ch.cfg.frm_cnt ch.slots) c.heap
  ]

  slots_fit : ch.cfg.frm_cnt ≤ length (slots_of (some size)).0
  unfolding slots_of
  slots_fit =
      let places = idle_slots ch.cfg.frm_cnt ch.slots in
      omega (
        arith,
        length-alloc malloc size 0 ch.cfg.frm_cnt places c.heap,
        length-idle ch.cfg.frm_cnt ch.slots,
      )

  -- The buffers of a start can be freed, and then the heap is as before.
  emptied :
      (left : Heap) × (free_slots ch.cfg.frm_cnt (slots_of (some size)).0 (slots_of (some size)).1
        ≡ some left)
      × ((a : ℕ) → left a ≡ c.heap a)
  unfolding slots_of
  emptied =
      let n = ch.cfg.frm_cnt in
      let places = idle_slots n ch.slots in
      let places_fit : n ≤ length places = omega (arith, length-idle n ch.slots) in
      let (slots', heap') = alloc_slots malloc size 0 n places c.heap in
      let blocks = alloc-heap malloc size 0 n places c.heap in
      let (left, freed, taken) =
        free_slots-taken n slots' heap' (alloc-Distinct malloc size 0 n places c.heap new)
          (alloc-bufs malloc size 0 n places c.heap new)
          (λ a h. (size, blocks a new places_fit ∙ rw h refl)) in
      (
        left,
        freed,
        λ a. elim (Bool-cases (has a (bufs n slots'))) [
          | inl given ↦ taken a ∙ rw given (sym (alloc-new malloc size n places c.heap a new given))
          | inr away ↦ taken a ∙ rw away (blocks a new places_fit ∙ rw away refl)
        ],
      )

  -- On the fake camera, with a dispatcher that has no consumers and no data: a start and then a stop of a
  -- channel with a known format, whatever the thread library answers in both, run to their ends: every free
  -- is of a block that is there, and the heap is as it was.
  pub start-stop :
      (fuel : ℕ)
      → k'.fuel ≡ suc fuel
      → eq_int idx (pos 4) ≡ true
      → IsList d.consumers d.consumer_list []
      → IsList d.items d.data_free_list []
      → (r r' : ℤ) × (c₁ c₂ : Camera) × (csi_camera_channel_start k malloc idx chn c ≡ some (r, c₁))
        × (csi_camera_channel_stop k' chn c₁ ≡ some (r', c₂))
        × ((a : ℕ) → c₂.heap a ≡ c.heap a)
  unfolding slots_of add_consumer
  start-stop fuel enough fake consumers items =
      let (r, c₁, ch₁, start, at₁, (slots, frm_cnt, img_fmt), heap, pointer) = started in
      let (left, freed, same) = emptied in
      let (slots', heap') = slots_of (some size) in
      let at_slots : ch₁.slots ≡ slots' = slots ∙ ap (λ o. (slots_of o).0) known in
      let at_heap : c₁.heap ≡ heap' = heap ∙ ap (λ o. (slots_of o).1) known in
      let freed₁ : free_slots ch₁.cfg.frm_cnt ch₁.slots c₁.heap ≡ some left =
        rw (frm_cnt, at_slots, at_heap) freed in
      let kept : (add_consumer k idx (some d)).1 ≡ some d = rw (fake, add_consumer) refl in
      let d' : Nodes = record d { thread_info = record (d.thread_info) { is_running = false } } in
      let stops : pca_dispatcher_stop k'.fuel (some d) ≡ some (pos 0, some d') =
        ap (λ n. pca_dispatcher_stop n (some d)) enough
        ∙ dispatcher_stop-defined fuel d [] [] consumers items in
      let (r', c₂, ch₂, stop, heap₂, at₂, like₂) =
        stopped k' chn size c₁ ch₁ left (some d) (some d') (pos 0) at₁ (rw img_fmt known)
          (rw (frm_cnt, at_slots) slots_fit) freed₁ (pointer ∙ ap some kept) stops in
      (r, r', c₁, c₂, start, stop, λ a. ap (λ h. h a) heap₂ ∙ same a)
