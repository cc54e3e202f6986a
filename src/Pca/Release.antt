-- ===== src/Pca/Release.antt =====
-- When a consumer of producer_consumer_async.c lets its datum go, and what it handles.
use csi_hal.Prelude.{
  ℕ, ◌<◌, zero, suc, pos, minus_one, add_u32, ◌&&◌, ◌||◌, ◌≡◌, ◌⊎◌, inl, inr, ap, ◌∙◌, Bool, true,
  false, not, some, List, [], ◌∷◌, ◌++◌, arith, if◌then◌else◌, get_elem?,
}
use mathlib.Core.Option.{some-injective}
use csi_hal.Pca.State.{DataInfo, Consumer, Dispatcher, takes}
use csi_hal.Pca.Feed.{Loop, feed_consumer, feed_loop, wake_consumer, wake_loop, pca_feed_consumers}
use csi_hal.Pca.Threads.{consumer_run}
use csi_hal.Pca.RefCount.{refs, held, holders, has_callback}
use csi_hal.Pca.RefCount.Items.{remove-Released}
use csi_hal.Pca.Steps.Consumers.{IsReady, get_elem?-IsReady, holders-set}
use csi_hal.Pca.Steps.Invariant.{IsSound}
use csi_hal.Pca.Steps.Sound.{consumer_run-Rested, run_at-IsSound}

held-one :
    (c : Consumer)
    → c.thread_info.has_new_data ≡ true
    → has_callback c.thread_info.data_info ≡ true
    → held c.thread_info.data_info.data_ptr c ≡ 1
held-one c busy b = ground arith

held-none : (q : ℕ) (c : Consumer) → c.thread_info.has_new_data ≡ false → held q c ≡ 0
held-none q c rest = ground arith

-- When a consumer ends its turn on a datum with a callback, in a sound system, the callback of that
-- datum's pointer is made exactly if no consumer holds the pointer any more, and only once.
pub run-releases :
    (p p' : Dispatcher) (i : ℕ) (c : Consumer)
    → IsSound p
    → get_elem? p.consumer_list i ≡ some c
    → has_callback c.thread_info.data_info ≡ true
    → consumer_run i c p ≡ some p'
    → let q = c.thread_info.data_info.data_ptr in
      ((p'.consumed ≡ p.consumed) × (0 < holders q p'.consumer_list))
      ⊎ ((x : DataInfo) × (p'.consumed ≡ p.consumed ++ (x ∷ []))
          × (x.data_ptr ≡ q)
          × (holders q p'.consumer_list ≡ 0))
run-releases p p' i c v at b e =
    let d = c.thread_info.data_info in
    let q = d.data_ptr in
    let (c', rested) =
      consumer_run-Rested p p' i c (get_elem?-IsReady p.consumer_list i c v.ready at) e in
    let (cs, items, calls, _, busy, rest, r') = rested in
    let after = run_at-IsSound p p' i c v at e in
    let one : held q c ≡ 1 = held-one c busy b in
    let some_left : 0 < refs q p.data_free_list = omega (
      arith,
      v.counted.counts q,
      holders-set q p.consumer_list i c c' at,
      one,
      held-none q c' rest,
    ) in
    elim (remove-Released d p.data_free_list p.consumed v.counted.good some_left b) [
      | inl (none_made, more) ↦
          inl (calls ∙ none_made, omega (arith, after.counted.counts q, ap (refs q) items, more))
      | inr (x, made, ptr, gone) ↦
          inr (x, calls ∙ made, ptr, omega (arith, after.counted.counts q, ap (refs q) items, gone))
    ]

-- Whether a consumer of the list takes the datum now.
abbrev pub any_free : DataInfo → List Consumer → Bool
any_free d [] = false
any_free d (c ∷ cs) = (takes c d && not c.thread_info.mutex_data) || any_free d cs

feed_loop-any :
    (d : DataInfo) (cs : List Consumer) (l : Loop)
    → (feed_loop d cs l).1.data_feed ≡ (l.data_feed || any_free d cs)
unfolding feed_loop feed_consumer
feed_loop-any d [] l = ground arith
feed_loop-any d (c ∷ cs) l = ground (arith, feed_loop-any d cs (feed_consumer d c l).1)

-- The loops at one place of the list: the consumer there has its turns, with some state of the loop.
get_elem?-feed_wake :
    (d : DataInfo) (cs : List Consumer) (l : Loop) (i : ℕ) (c : Consumer)
    → get_elem? cs i ≡ some c
    → (l' : Loop) × (get_elem? (wake_loop (feed_loop d cs l).0) i
        ≡ some (wake_consumer (feed_consumer d c l').0))
unfolding feed_loop wake_loop
get_elem?-feed_wake d [] l i c e = cc
get_elem?-feed_wake d (b ∷ cs) l zero c e =
    (l, ap (λ x. some (wake_consumer (feed_consumer d x l).0)) (some-injective _ _ e))
get_elem?-feed_wake d (b ∷ cs) l (suc i) c e =
    get_elem?-feed_wake d cs (feed_consumer d b l).1 i c e

-- The consumer behind a pass with the datum: it has the datum and is awake if it takes the type and
-- is free, it has counted a loss if it takes the type and is busy, and its datum is untouched else.
abbrev pub Served : DataInfo → Consumer → Consumer → Type 0
Served d c c' =
    let t = c.thread_info in
    let t' = c'.thread_info in
    (if takes c d && not t.mutex_data
      then (t'.data_info ≡ d)
        × (t'.has_new_data ≡ true)
        × (0 < t'.sem_wakeup)
        × (t'.stats.total_discarded ≡ t.stats.total_discarded)
      else (t'.data_info ≡ t.data_info)
        × (t'.has_new_data ≡ t.has_new_data)
        × (t'.stats.total_discarded
            ≡ (if takes c d then add_u32 t.stats.total_discarded 1 else t.stats.total_discarded)))
    × (t'.phase ≡ t.phase)
    × (t'.mutex_data ≡ t.mutex_data)

feed_wake-Served :
    (d : DataInfo) (c : Consumer) (l : Loop)
    → IsReady c
    → Served d c (wake_consumer (feed_consumer d c l).0)
unfolding feed_consumer wake_consumer
feed_wake-Served d c l r = ground arith

-- A pass of `pca_feed_consumers` serves each consumer as `Served` says, and reports SUCCESS exactly
-- if one of them takes the type and is free.
pub feed_consumers-Served :
    (p : Dispatcher) (d : DataInfo) (i : ℕ) (c : Consumer)
    → IsSound p
    → get_elem? p.consumer_list i ≡ some c
    → let (ret, p') = pca_feed_consumers p d in
      (ret ≡ (if any_free d p.consumer_list then pos 0 else minus_one))
      × ((c' : Consumer) × (get_elem? p'.consumer_list i ≡ some c') × Served d c c')
unfolding pca_feed_consumers
feed_consumers-Served p d i c v at =
    let start : Loop = record {
      items = p.data_free_list;
      consumed = p.consumed;
      data_feed = false;
    } in
    let (l, e) = get_elem?-feed_wake d p.consumer_list start i c at in
    (
      ground (arith, feed_loop-any d p.consumer_list start),
      (
        wake_consumer (feed_consumer d c l).0,
        e,
        feed_wake-Served d c l (get_elem?-IsReady p.consumer_list i c v.ready at),
      ),
    )
