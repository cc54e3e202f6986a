-- ===== src/Simulator/Channels/Outcome.antt =====
-- What a start and a stop leave of a channel (src/platform/simulator/csi_camera.c).
use csi_hal.Prelude.{
  ℕ, zero, suc, ◌<◌, ◌≤◌, ℤ, pos, is_zero, ◌≡◌, inl, inr, refl, ap, ◌∙◌, Option, some,
  if◌then◌else◌, List, [], ◌∷◌, arith, length, length-set, get_elem?, get_elem?-set_self,
  get_elem?-inside, set, Bool-cases, Option-cases, sym, true, false,
}
use mathlib.Core.Option.{some-injective}
use csi_hal.Hal.{running, opened}
use csi_hal.Simulator.Frames.{Slot, Channel}
use csi_hal.Simulator.Channels.{
  Camera, Calls, Heap, framesize, channel_feeddata_thread_run, channel_feeddata_thread_stop,
  idle_slots, alloc_slots, free_slots, with_status,
}
use csi_hal.Simulator.Channels.Operations.{
  halt, stop_dispatcher, stop_all, add_consumer, run_all, launch, csi_camera_channel_stop,
}
use csi_hal.Pca.Stop.{Nodes, pca_dispatcher_stop, pca_dispatcher_run}

pub halt-keeps :
    (k : Calls) (c : Camera)
    → ((halt k c).channels ≡ c.channels)
      × ((halt k c).heap ≡ c.heap)
      × ((halt k c).dispatcher ≡ c.dispatcher)
unfolding channel_feeddata_thread_stop
halt-keeps k c = (ground arith, ground arith, ground arith)

run-keeps :
    (k : Calls) (c : Camera)
    → ((channel_feeddata_thread_run k c).1.channels ≡ c.channels)
      × ((channel_feeddata_thread_run k c).1.heap ≡ c.heap)
      × ((channel_feeddata_thread_run k c).1.dispatcher ≡ c.dispatcher)
unfolding channel_feeddata_thread_run
run-keeps k c = (ground arith, ground arith, ground arith)

pub length-idle : (n : ℕ) (slots : List Slot) → length (idle_slots n slots) ≡ length slots
unfolding idle_slots
length-idle zero slots = refl
length-idle (suc n) [] = refl
length-idle (suc n) (s ∷ slots) = ap suc (length-idle n slots)

pub length-alloc :
    (malloc : ℕ → ℕ) (size i n : ℕ) (slots : List Slot) (heap : Heap)
    → length (alloc_slots malloc size i n slots heap).0 ≡ length slots
unfolding alloc_slots
length-alloc malloc size i zero slots heap = refl
length-alloc malloc size i (suc n) [] heap = refl
length-alloc malloc size i (suc n) (s ∷ slots) heap =
    ap suc (length-alloc malloc size (suc i) n slots _)

-- A channel with the slots and the configuration of another, up to its status
abbrev pub Like : Channel → Channel → Type 0
Like ch ch' =
    (ch'.slots ≡ ch.slots) × (ch'.cfg.frm_cnt ≡ ch.cfg.frm_cnt) × (ch'.cfg.img_fmt ≡ ch.cfg.img_fmt)

run_all-Like :
    (k : Calls) (chn : ℕ) (ch : Channel) (c : Camera) (added : ℤ) (pointer : Option Nodes)
    → get_elem? c.channels chn ≡ some ch
    → chn < length c.channels
    → let (r, c') = run_all k chn ch c (added, pointer) in
      (ch' : Channel) × (get_elem? c'.channels chn ≡ some ch')
      × Like ch ch'
      × (c'.heap ≡ c.heap)
      × (c'.dispatcher ≡ some pointer)
unfolding run_all
run_all-Like k chn ch c added pointer at inside =
    let c₁ : Camera = record c { dispatcher = some pointer } in
    let (channels, heap, dispatcher) = run-keeps k c₁ in
    elim (Bool-cases (is_zero added)) [
      | inr refused ↦ rw (refused, run_all) (ch, at, (refl, refl, refl), refl, refl)
      | inl ok ↦ elim (Bool-cases (is_zero (pca_dispatcher_run k.dispatcher_create pointer))) [
        | inr refused ↦ rw (ok, refused, run_all) (ch, at, (refl, refl, refl), refl, refl)
        | inl ran ↦
            rw (ok, ran)
              (
                with_status running ch,
                rw channels (get_elem?-set_self c.channels chn (with_status running ch) inside),
                (refl, refl, refl),
                heap,
                dispatcher,
              )
      ]
    ]

pub launch-Like :
    (k : Calls) (idx : ℤ) (chn : ℕ) (ch : Channel) (c : Camera) (pointer : Option Nodes)
    → get_elem? c.channels chn ≡ some ch
    → chn < length c.channels
    → c.dispatcher ≡ some pointer
    → (r : ℤ) × (c' : Camera) × (ch' : Channel) × (launch k idx chn ch c ≡ some (r, c'))
      × (get_elem? c'.channels chn ≡ some ch')
      × Like ch ch'
      × (c'.heap ≡ c.heap)
      × (c'.dispatcher ≡ some (add_consumer k idx pointer).1)
launch-Like k idx chn ch c pointer at inside there =
    let (channels, heap, dispatcher) = halt-keeps k c in
    let (added, pointer') = add_consumer k idx pointer in
    let (ch', at', like, heap', there') =
      run_all-Like k chn ch (halt k c) added pointer' (rw channels at) (rw channels inside) in
    let (r, c') = run_all k chn ch (halt k c) (added, pointer') in
    (r, c', ch', rw (dispatcher ∙ there) refl, at', like, heap' ∙ heap, there')

pub stop_dispatcher-stops :
    (k : Calls) (c : Camera) (pointer pointer' : Option Nodes) (ret : ℤ)
    → c.dispatcher ≡ some pointer
    → pca_dispatcher_stop k.fuel pointer ≡ some (ret, pointer')
    → stop_dispatcher k c ≡ some (ret, record c { dispatcher = some pointer' })
unfolding stop_dispatcher
stop_dispatcher-stops k c pointer pointer' ret there stops = rw (there, stops, stop_dispatcher) refl

pub stop_all-on :
    (k : Calls) (c : Camera) → c.producing ≡ true → stop_all k c ≡ stop_dispatcher k (halt k c)
unfolding stop_all
stop_all-on k c on = ap (λ b. if b then stop_dispatcher k (halt k c) else some (pos 0, c)) on

pub stop_all-off : (k : Calls) (c : Camera) → c.producing ≡ false → stop_all k c ≡ some (pos 0, c)
unfolding stop_all
stop_all-off k c off = ap (λ b. if b then stop_dispatcher k (halt k c) else some (pos 0, c)) off

-- Whatever the dispatcher does, the channels stay.
stop_dispatcher-channels :
    (k : Calls) (c c' : Camera) (ret : ℤ)
    → stop_dispatcher k c ≡ some (ret, c')
    → c'.channels ≡ c.channels
unfolding stop_dispatcher
stop_dispatcher-channels k c c' ret done = elim (Option-cases c.dispatcher) [
  | inl gone ↦ cc (rw (gone, stop_dispatcher) at done)
  | inr (pointer, there) ↦ elim (Option-cases (pca_dispatcher_stop k.fuel pointer)) [
    | inl stuck ↦ cc (rw (there, stuck, stop_dispatcher) at done)
    | inr ((code, pointer'), stops) ↦
        let stopped = stop_dispatcher-stops k c pointer pointer' code there stops in
        let same : (code, record c { dispatcher = some pointer' }) ≡ (ret, c') =
          some-injective _ _ (sym stopped ∙ done) in
        sym (ap (λ r. r.1.channels) same)
  ]
]

pub stop_all-channels :
    (k : Calls) (c c' : Camera) (ret : ℤ) → stop_all k c ≡ some (ret, c') → c'.channels ≡ c.channels
stop_all-channels k c c' ret done = elim (Bool-cases c.producing) [
  | inr off ↦
      let same : (pos 0, c) ≡ (ret, c') = some-injective _ _ (sym (stop_all-off k c off) ∙ done) in
      sym (ap (λ r. r.1.channels) same)
  | inl on ↦
      stop_dispatcher-channels k (halt k c) c' ret (sym (stop_all-on k c on) ∙ done)
      ∙ (halt-keeps k c).0
]

-- Where the dispatcher can be stopped, so can all.
stop_all-keeps :
    (k : Calls) (c : Camera) (pointer pointer' : Option Nodes) (ret : ℤ)
    → c.dispatcher ≡ some pointer
    → pca_dispatcher_stop k.fuel pointer ≡ some (ret, pointer')
    → (code : ℤ) × (c' : Camera) × (stop_all k c ≡ some (code, c'))
      × (c'.channels ≡ c.channels)
      × (c'.heap ≡ c.heap)
stop_all-keeps k c pointer pointer' ret there stops =
    let (channels, heap, dispatcher) = halt-keeps k c in
    elim (Bool-cases c.producing) [
      | inr off ↦ (pos 0, c, stop_all-off k c off, refl, refl)
      | inl on ↦
          let c' : Camera = record (halt k c) { dispatcher = some pointer' } in
          let e =
            stop_dispatcher-stops k (halt k c) pointer pointer' ret (dispatcher ∙ there) stops in
          (ret, c', stop_all-on k c on ∙ e, channels, heap)
    ]

-- A stop that can free the buffers of the channel leaves the heap without them.
pub stopped :
    (k : Calls) (chn size : ℕ) (c : Camera) (ch : Channel) (left : Heap)
    (pointer pointer' : Option Nodes) (ret : ℤ)
    → get_elem? c.channels chn ≡ some ch
    → framesize ch.cfg.img_fmt ≡ some size
    → ch.cfg.frm_cnt ≤ length ch.slots
    → free_slots ch.cfg.frm_cnt ch.slots c.heap ≡ some left
    → c.dispatcher ≡ some pointer
    → pca_dispatcher_stop k.fuel pointer ≡ some (ret, pointer')
    → (r : ℤ) × (c' : Camera) × (ch' : Channel) × (csi_camera_channel_stop k chn c ≡ some (r, c'))
      × (c'.heap ≡ left)
      × (get_elem? c'.channels chn ≡ some ch')
      × Like (record ch { slots = idle_slots ch.cfg.frm_cnt ch.slots }) ch'
unfolding csi_camera_channel_stop
stopped k chn size c ch left pointer pointer' ret at known fits freed there stops =
    let ch₁ : Channel = record ch { slots = idle_slots ch.cfg.frm_cnt ch.slots } in
    let c₁ : Camera = record c { channels = set c.channels chn ch₁; heap = left } in
    let (code, c₂, all, channels, heap) = stop_all-keeps k c₁ pointer pointer' ret there stops in
    let done : Camera = record c₂ { channels = set c₂.channels chn (with_status opened ch₁) } in
    let inside = get_elem?-inside c.channels chn ch at in
    let at₁ = get_elem?-set_self c.channels chn ch₁ inside in
    let inside₁ : chn < length c₁.channels = omega (arith, length-set c.channels chn ch₁) in
    let at₂ : get_elem? done.channels chn ≡ some (with_status opened ch₁) =
      rw channels (get_elem?-set_self c₁.channels chn (with_status opened ch₁) inside₁) in
    elim (Bool-cases (is_zero code)) [
      | inr bad ↦ (
        code,
        c₂,
        ch₁,
        ground (arith, at, known, freed, fits, all, bad),
        heap,
        rw channels at₁,
        (refl, refl, refl),
      )
      | inl good ↦ (
        (if c.producing then code else pos 0),
        done,
        with_status opened ch₁,
        ground (arith, at, known, freed, fits, all, good),
        heap,
        at₂,
        (refl, refl, refl),
      )
    ]
