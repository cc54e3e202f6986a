-- ===== src/Simulator/Channels/Undefined.antt =====
-- A stop behind the start of a channel of a camera that OpenCV serves (src/platform/simulator/csi_camera.c):
-- the start adds a consumer to the dispatcher, whose stop then reads what it has freed.
use csi_hal.Prelude.{
  ℕ, suc, ◌≤◌, ℤ, pos, eq_int, ◌≡◌, inl, inr, refl, ap, ◌∙◌, true, false, Option, none, some, List,
  [], ◌∷◌, ◌++◌, arith, length, get_elem?, set, is_empty, ◌==◌, Option-cases,
}
use csi_hal.Llist.{llist_insert, llist_backward}
use csi_hal.Llist.Refine.{IsList, llist_insert-insert_by}
use csi_hal.Pca.State.{Consumer, FreeItem}
use csi_hal.Pca.Threads.{pca_init_thread_info}
use csi_hal.Pca.Stop.{Nodes, add_consumer_node, pca_dispatcher_stop, pca_dispatcher_run}
use csi_hal.Pca.Stop.Freed.{dispatcher_stop-defined}
use csi_hal.Hal.{running}
use csi_hal.Simulator.Frames.{Channel}
use csi_hal.Simulator.Channels.{Camera, Calls, channel_feeddata_thread_run, idle_slots, with_status}
use csi_hal.Simulator.Channels.Operations.{
  halt, stop_dispatcher, stop_all, add_consumer, run_all, launch, start_slots, stop_heap,
  csi_camera_channel_start, csi_camera_channel_stop,
}
use csi_hal.Simulator.Channels.Outcome.{halt-keeps, stop_all-on}

-- A dispatcher that has no defined stop leaves a stop of a channel without one while the producer runs.
stop-stuck :
    (k : Calls) (chn : ℕ) (c : Camera) (pointer : Option Nodes)
    → c.producing ≡ true
    → c.dispatcher ≡ some pointer
    → pca_dispatcher_stop k.fuel pointer ≡ none
    → csi_camera_channel_stop k chn c ≡ none
unfolding csi_camera_channel_stop stop_dispatcher
stop-stuck k chn c pointer on there stuck = elim (Option-cases (get_elem? c.channels chn)) [
  | inl out ↦ ground (arith, out)
  | inr (ch, at) ↦ elim (Option-cases (stop_heap ch c.heap)) [
    | inl bad ↦ rw (at, bad, csi_camera_channel_stop) refl
    | inr ((ret, heap), freed) ↦
        let ch₁ : Channel = record ch { slots = idle_slots ch.cfg.frm_cnt ch.slots } in
        let c₁ : Camera = record c { channels = set c.channels chn ch₁; heap = heap } in
        let kept = (halt-keeps k c₁).2 in
        let halted : stop_dispatcher k (halt k c₁) ≡ none =
          rw (kept ∙ there, stuck, stop_dispatcher) refl in
        let all : stop_all k c₁ ≡ none = stop_all-on k c₁ on ∙ halted in
        rw (at, freed, all, csi_camera_channel_stop) (ground arith)
  ]
]

is_empty-append : (s : List Consumer) (v : Consumer) → is_empty (s ++ v ∷ []) ≡ false
is_empty-append [] v = refl
is_empty-append (x ∷ s) v = refl

-- The consumer that a start adds
consumer : Consumer
consumer = record { thread_info = pca_init_thread_info; data_type = pos 1 }

module _ (k k' : Calls) (malloc : ℕ → ℕ) (idx : ℤ) (chn fuel : ℕ) (c : Camera) (ch : Channel)
    (d : Nodes) (consumers : List Consumer) (items : List FreeItem) where
  -- Behind it no stop of the dispatcher is defined.
  added-stuck :
      IsList d.consumers d.consumer_list consumers
      → IsList d.items d.data_free_list items
      → d.consumers.live k.consumer_node ≡ false
      → (k.consumer_node == 0) ≡ false
      → eq_int idx (pos 4) ≡ false
      → (d' : Nodes) × (add_consumer k idx (some d) ≡ (k.consumer_create, some d'))
        × (pca_dispatcher_stop (suc fuel) (some d') ≡ none)
  unfolding add_consumer add_consumer_node consumer
  added-stuck list list' free some_node real =
      let d' : Nodes = record d {
        consumers =
            (llist_insert d.consumer_list k.consumer_node consumer llist_backward d.consumers).1;
      } in
      let more =
        (llist_insert-insert_by k.consumer_node consumer list free some_node llist_backward
          refl).1 in
      (
        d',
        rw (real, some_node, add_consumer, add_consumer_node) refl,
        dispatcher_stop-defined fuel d' (consumers ++ consumer ∷ []) items more list'
            ∙ rw (is_empty-append consumers consumer) refl,
      )

  -- A channel that exists is started on a camera that OpenCV serves, where its places are there, `malloc`
  -- gives a node for its consumer, and each thread is created: the start returns 0, and a stop of the
  -- channel behind it has no defined result, whatever the consumers and data of the dispatcher were.
  pub start-stop_undefined :
      get_elem? c.channels chn ≡ some ch
      → ch.cfg.frm_cnt ≤ length ch.slots
      → c.dispatcher ≡ some (some d)
      → IsList d.consumers d.consumer_list consumers
      → IsList d.items d.data_free_list items
      → d.consumers.live k.consumer_node ≡ false
      → (k.consumer_node == 0) ≡ false
      → eq_int idx (pos 4) ≡ false
      → k.consumer_create ≡ pos 0
      → k.dispatcher_create ≡ pos 0
      → k.pthread_create ≡ pos 0
      → k'.fuel ≡ suc fuel
      → (c₁ : Camera) × (csi_camera_channel_start k malloc idx chn c ≡ some (pos 0, c₁))
        × (csi_camera_channel_stop k' chn c₁ ≡ none)
  unfolding csi_camera_channel_start run_all channel_feeddata_thread_run pca_dispatcher_run
  start-stop_undefined at fits there list list' free some_node real one two three enough =
      let (d', added, stuck) = added-stuck list list' free some_node real in
      let ch₀ : Channel = record ch { slots = (start_slots malloc ch c.heap).0 } in
      let c₀ : Camera = record c {
        channels = set c.channels chn ch₀;
        heap = (start_slots malloc ch c.heap).1;
        frame_csem = 0;
      } in
      let kept = (halt-keeps k c₀).2 in
      let h = halt k c₀ in
      let c₁ : Camera = record h {
        producing = true;
        dispatcher = some (some d');
        channels = set h.channels chn (with_status running ch₀);
      } in
      let ran : run_all k chn ch₀ h (pos 0, some d') ≡ (pos 0, c₁) =
        rw (two, three, run_all) refl in
      let added' : add_consumer k idx (some d) ≡ (pos 0, some d') =
        added ∙ ap (λ r. (r, some d')) one in
      let launched : launch k idx chn ch₀ c₀ ≡ some (pos 0, c₁) =
        rw (kept ∙ there, added') (ap some ran) in
      (
        c₁,
        ground (arith, at, fits, launched),
        stop-stuck k' chn c₁ (some d') refl refl
            (ap (λ n. pca_dispatcher_stop n (some d')) enough ∙ stuck),
      )
