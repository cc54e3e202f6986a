-- ===== src/Simulator/Channels/Operations.antt =====
-- The calls on the channels of the simulated camera (src/platform/simulator/csi_camera.c).
use csi_hal.Prelude.{
  ℕ, zero, suc, ℤ, pos, negsuc, minus_one, is_zero, eq_int, not, Option, none, some, List, [], ◌∷◌,
  length, leb, ltb, get_elem?, set, if◌then◌else◌, ◌>>=◌,
}
use csi_hal.Hal.{ChannelCfg, closed, opened, running}
use csi_hal.Pca.Stop.{Nodes, add_consumer_node, pca_dispatcher_stop, pca_dispatcher_run}
use csi_hal.Simulator.Frames.{Slot, Channel}
use csi_hal.Simulator.Channels.{
  Camera, Calls, Heap, framesize, channel_feeddata_thread_run, channel_feeddata_thread_stop,
  idle_slots, alloc_slots, free_slots, reset_all, with_status,
}

-- `memcpy(&g_camera_channel_cfgs[id], cfg)`
abbrev pub with_cfg : ℕ → ChannelCfg → List Channel → List Channel
with_cfg i cfg [] = []
with_cfg zero cfg (c ∷ channels) = record c { cfg = cfg } ∷ channels
with_cfg (suc i) cfg (c ∷ channels) = c ∷ with_cfg i cfg channels

-- The producer stops where it runs; the code of that is ignored.
abbrev pub halt : Calls → Camera → Camera
halt k c = if c.producing then (channel_feeddata_thread_stop k c).1 else c

-- `pca_dispatcher_stop(s_dispatcher)`
unfoldable pub stop_dispatcher : Calls → Camera → Option (ℤ × Camera)
unfolding pca_dispatcher_stop
stop_dispatcher k c = do
  pointer ← c.dispatcher
  (ret, pointer') ← pca_dispatcher_stop k.fuel pointer
  some (ret, record c { dispatcher = some pointer' })

-- Where the producer runs, it and the dispatcher are stopped.
unfoldable pub stop_all : Calls → Camera → Option (ℤ × Camera)
unfolding stop_dispatcher
stop_all k c = if c.producing then stop_dispatcher k (halt k c) else some (pos 0, c)

unfoldable pub csi_camera_channel_open : Calls → Option ChannelCfg → Camera → Option (ℤ × Camera)
csi_camera_channel_open k none c = some (minus_one, c)
csi_camera_channel_open k (some cfg) c = elim cfg.chn_id [
  | negsuc n ↦ some (minus_one, c)
  | pos id ↦
      let stopped : Option (ℤ × Camera) = stop_all k c >>= λ (ret, c₁).
      let channels = with_cfg id (record cfg { status = opened }) (reset_all c₁.channels) in
      some (if is_zero ret then (pos 0, record c₁ { channels = channels }) else (ret, c₁)) in
      if ltb 2 id then some (minus_one, c) else stopped
]

-- `none` where there is no such channel: the code has no bound on `chn_id`.
unfoldable pub csi_camera_channel_close : ℕ → Camera → Option (ℤ × Camera)
csi_camera_channel_close chn_id c = elim (get_elem? c.channels chn_id) [
  | none ↦ none
  | some ch ↦ some (pos 0, record c { channels = set c.channels chn_id (with_status closed ch) })
]

unfoldable pub csi_camera_channel_query :
    Option ChannelCfg → Camera → Option (ℤ × Option ChannelCfg)
csi_camera_channel_query none c = some (minus_one, none)
csi_camera_channel_query (some cfg) c = elim cfg.chn_id [
  | negsuc n ↦ some (minus_one, some cfg)
  | pos id ↦
      let copied : Option (ℤ × Option ChannelCfg) = elim (get_elem? c.channels id) [
        | none ↦ none
        | some ch ↦ some (pos 0, some ch.cfg)
      ] in
      if ltb 2 id then some (minus_one, some cfg) else copied
]

-- The consumer of a channel is added to the dispatcher, but for the fake camera, whose index is 4. The
-- data type of each `process_info` is 1.
unfoldable pub add_consumer : Calls → ℤ → Option Nodes → ℤ × Option Nodes
unfolding add_consumer_node
add_consumer k idx pointer =
    if eq_int idx (pos 4)
    then (pos 0, pointer)
    else add_consumer_node k.consumer_node k.consumer_create (pos 1) pointer

-- Behind it the dispatcher's thread and the producer are started.
unfoldable pub run_all : Calls → ℕ → Channel → Camera → ℤ × Option Nodes → ℤ × Camera
unfolding pca_dispatcher_run
run_all k chn_id ch c (added, pointer) =
    let c₁ : Camera = record c { dispatcher = some pointer } in
    let ret = pca_dispatcher_run k.dispatcher_create pointer in
    let c₂ = (channel_feeddata_thread_run k c₁).1 in
    if not (is_zero added)
    then (added, c₁)
    else if not (is_zero ret)
    then (ret, c₁)
    else (ret, record c₂ { channels = set c₂.channels chn_id (with_status running ch) })

-- The end of a start
abbrev pub launch : Calls → ℤ → ℕ → Channel → Camera → Option (ℤ × Camera)
launch k idx chn_id ch c =
    let c₁ = halt k c in
    c₁.dispatcher >>= λ pointer. some (run_all k chn_id ch c₁ (add_consumer k idx pointer))

-- The places and the heap as a start leaves them. An unknown format only sets a code that is
-- overwritten.
abbrev pub start_slots : (ℕ → ℕ) → Channel → Heap → List Slot × Heap
start_slots malloc ch heap =
    let slots = idle_slots ch.cfg.frm_cnt ch.slots in
    elim (framesize ch.cfg.img_fmt) [
      | none ↦ (slots, heap)
      | some size ↦ alloc_slots malloc size 0 ch.cfg.frm_cnt slots heap
    ]

unfoldable pub csi_camera_channel_start : Calls → (ℕ → ℕ) → ℤ → ℕ → Camera → Option (ℤ × Camera)
unfolding run_all add_consumer
csi_camera_channel_start k malloc idx chn_id c = elim (get_elem? c.channels chn_id) [
  | none ↦ none
  | some ch ↦
      let (slots, heap) = start_slots malloc ch c.heap in
      let ch₁ : Channel = record ch { slots = slots } in
      let c₁ : Camera = record c {
        channels = set c.channels chn_id ch₁;
        heap = heap;
        frame_csem = 0;
      } in
      if leb ch.cfg.frm_cnt (length ch.slots) then launch k idx chn_id ch₁ c₁ else none
]

-- The heap as a stop leaves it, with the code of its format
abbrev pub stop_heap : Channel → Heap → Option (ℤ × Heap)
stop_heap ch heap = elim (framesize ch.cfg.img_fmt) [
  | none ↦ some (minus_one, heap)
  | some size ↦ elim (free_slots ch.cfg.frm_cnt ch.slots heap) [
    | none ↦ none
    | some heap₁ ↦ some (pos 0, heap₁)
  ]
]

unfoldable pub csi_camera_channel_stop : Calls → ℕ → Camera → Option (ℤ × Camera)
csi_camera_channel_stop k chn_id c = elim (get_elem? c.channels chn_id) [
  | none ↦ none
  | some ch ↦ elim (stop_heap ch c.heap) [
    | none ↦ none
    | some (ret, heap) ↦
        let ch₁ : Channel = record ch { slots = idle_slots ch.cfg.frm_cnt ch.slots } in
        let c₁ : Camera = record c { channels = set c.channels chn_id ch₁; heap = heap } in
        let stopped : Option (ℤ × Camera) = stop_all k c₁ >>= λ (code, c₂).
        let done : Camera = record c₂ {
          channels = set c₂.channels chn_id (with_status opened ch₁);
        } in
        some (
          if not (is_zero code)
          then (code, c₂)
          else if c.producing
          then (code, done)
          else (ret, done)) in
        if leb ch.cfg.frm_cnt (length ch.slots) then stopped else none
  ]
]
