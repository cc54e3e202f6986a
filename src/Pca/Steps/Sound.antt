-- ===== src/Pca/Steps/Sound.antt =====
-- Every step of producer_consumer_async.c keeps the counts and the flags.
use csi_hal.Prelude.{
  ℕ, ◌≡◌, inl, inr, refl, ap, sym, true, false, Option, none, some, arith, if◌then◌else◌, length,
  get_elem?, set, length-set, Option-cases,
}
use mathlib.Core.Path.{subst}
use mathlib.Core.Option.{some-injective}
use csi_hal.Pca.State.{DataInfo, waiting, Consumer, Dispatcher, bump_consumed, takes}
use csi_hal.Pca.FreeList.{pca_remove_data_free_item}
use csi_hal.Pca.Feed.{Loop, feed_running, pca_feed_consumers}
use csi_hal.Pca.Threads.{
  Act, produce, wake, lock_data, dispatch, wake_at, lock_at, run_at, put_at, dispatcher_wake,
  dispatcher_lock, dispatcher_run, consumer_wake, consumer_lock, consumer_run, step_at, step,
}
use csi_hal.Pca.RefCount.{refs, counted, held, holders, Good}
use csi_hal.Pca.RefCount.Items.{refs-remove, remove-Good}
use csi_hal.Pca.RefCount.Feeding.{feed_consumers-IsCounted}
use csi_hal.Pca.Steps.Consumers.{
  IsReady, AllReady, feed_wake-AllReady, set-AllReady, get_elem?-IsReady, wake-IsReady,
  lock-IsReady, holders-set,
}
use csi_hal.Pca.Steps.Invariant.{DispatcherReady, IsSound, keep-IsCounted, keep-IsSound}

feed_running-IsSound : (p : Dispatcher) (d : DataInfo) → IsSound p → IsSound (feed_running p d)
unfolding feed_running
feed_running-IsSound p d v =
    let ready = v.dispatcher in
    keep-IsSound p (feed_running p d) v (ground arith) (ground arith) (ground arith)

module _ (p p' : Dispatcher) (v : IsSound p) where
  wake-IsSound : dispatcher_wake p ≡ some p' → IsSound p'
  unfolding dispatcher_wake
  wake-IsSound e =
      let ready = v.dispatcher in keep-IsSound p p' v (ground arith) (ground arith) (ground arith)

  lock-IsSound : dispatcher_lock p ≡ some p' → IsSound p'
  unfolding dispatcher_lock
  lock-IsSound e =
      let ready = v.dispatcher in keep-IsSound p p' v (ground arith) (ground arith) (ground arith)

  fed : Dispatcher
  fed = (pca_feed_consumers p p.thread_info.data_info).1

  dispatch-fed :
      dispatcher_run p ≡ some p'
      → (p'.data_free_list ≡ fed.data_free_list)
        × (p'.consumer_list ≡ fed.consumer_list)
        × DispatcherReady p'.thread_info
  unfolding dispatcher_run fed pca_feed_consumers
  dispatch-fed e = let ready = v.dispatcher in ground arith

  dispatch-IsSound : dispatcher_run p ≡ some p' → IsSound p'
  unfolding fed pca_feed_consumers
  dispatch-IsSound e =
      let (f, c, d) = dispatch-fed e in
      let x = p.thread_info.data_info in
      let start : Loop = record {
        items = p.data_free_list;
        consumed = p.consumed;
        data_feed = false;
      } in
      record {
        counted = keep-IsCounted fed p' (feed_consumers-IsCounted p x v.counted) f c;
        ready = subst AllReady (sym c) (feed_wake-AllReady x p.consumer_list start v.ready);
        dispatcher = d;
      }

  -- A consumer's step that changes its own place only.
  put_at-IsSound :
      (i : ℕ) (c c' : Consumer)
      → get_elem? p.consumer_list i ≡ some c
      → IsReady c'
      → ((q : ℕ) → held q c' ≡ held q c)
      → IsSound (record p { consumer_list = set p.consumer_list i c' })
  put_at-IsSound i c c' e r same = record {
    counted = record {
      good = v.counted.good;
      few = omega (arith, v.counted.few, length-set p.consumer_list i c');
      counts =
          λ q. omega (arith, v.counted.counts q, holders-set q p.consumer_list i c c' e, same q);
    };
    ready = set-AllReady p.consumer_list i c' v.ready r;
    dispatcher = v.dispatcher;
  }

held-consumer_wake : (q : ℕ) (c c' : Consumer) → consumer_wake c ≡ some c' → held q c' ≡ held q c
unfolding consumer_wake
held-consumer_wake q c c' e = ground arith

held-consumer_lock : (q : ℕ) (c c' : Consumer) → consumer_lock c ≡ some c' → held q c' ≡ held q c
unfolding consumer_lock
held-consumer_lock q c c' e = ground arith

-- The consumer behind its turn.
abbrev pub Rested : Dispatcher → Dispatcher → ℕ → Consumer → Consumer → Type 0
Rested p p' i c c' =
    let (items, consumed) =
      pca_remove_data_free_item c.thread_info.data_info p.data_free_list p.consumed in
    (p'.consumer_list ≡ set p.consumer_list i c')
    × (p'.data_free_list ≡ items)
    × (p'.consumed ≡ consumed)
    × (p'.thread_info ≡ p.thread_info)
    × (c.thread_info.has_new_data ≡ true)
    × (c'.thread_info.has_new_data ≡ false)
    × IsReady c'

pub consumer_run-Rested :
    (p p' : Dispatcher) (i : ℕ) (c : Consumer)
    → IsReady c
    → consumer_run i c p ≡ some p'
    → (c' : Consumer) × Rested p p' i c c'
unfolding consumer_run
consumer_run-Rested p p' i c r e = (
  record c {
    thread_info = record (c.thread_info) {
      has_new_data = false;
      mutex_data = false;
      stats =
          if takes c c.thread_info.data_info
          then bump_consumed c.thread_info.stats
          else c.thread_info.stats;
      phase = waiting;
    };
  },
  (ground arith, ground arith, ground arith, ground arith, ground arith, refl, ground arith),
)

pub run_at-IsSound :
    (p p' : Dispatcher) (i : ℕ) (c : Consumer)
    → IsSound p
    → get_elem? p.consumer_list i ≡ some c
    → consumer_run i c p ≡ some p'
    → IsSound p'
run_at-IsSound p p' i c v at e =
    let d = c.thread_info.data_info in
    let (c', rested) =
      consumer_run-Rested p p' i c (get_elem?-IsReady p.consumer_list i c v.ready at) e in
    let (cs, items, _, t, busy, rest, r') = rested in
    record {
      counted = record {
        good = subst Good (sym items) (remove-Good d p.data_free_list p.consumed v.counted.good);
        few = omega (arith, ap length cs, length-set p.consumer_list i c', v.counted.few);
        counts = λ q.
            let now : held q c' ≡ 0 = ground arith in
            let before : held q c ≡ counted q d = ground arith in
            omega (
              arith,
              ap (refs q) items,
              ap (holders q) cs,
              now,
              before,
              refs-remove q d p.data_free_list p.consumed v.counted.good,
              holders-set q p.consumer_list i c c' at,
              v.counted.counts q,
            );
      };
      ready = subst AllReady (sym cs) (set-AllReady p.consumer_list i c' v.ready r');
      dispatcher = subst DispatcherReady (sym t) v.dispatcher;
    }

-- A consumer's own step, given what it does to the consumer.
put_at-step :
    (p p' : Dispatcher) (i : ℕ) (c : Consumer) (o : Option Consumer)
    → IsSound p
    → get_elem? p.consumer_list i ≡ some c
    → ((c' : Consumer) → o ≡ some c' → IsReady c' × ((q : ℕ) → held q c' ≡ held q c))
    → put_at i p o ≡ some p'
    → IsSound p'
put_at-step p p' i c none v at own e = cc
put_at-step p p' i c (some c') v at own e =
    let (ready, same) = own c' refl in
    subst IsSound (some-injective _ _ e) (put_at-IsSound p p' v i c c' at ready same)

own_step :
    (p p' : Dispatcher) (i : ℕ) (f : Consumer → Option Consumer)
    → IsSound p
    → ((c c' : Consumer)
        → IsReady c
        → f c ≡ some c'
        → IsReady c' × ((q : ℕ) → held q c' ≡ held q c))
    → step_at i (λ c. put_at i p (f c)) p ≡ some p'
    → IsSound p'
unfolding step_at
own_step p p' i f v own e = elim (Option-cases (get_elem? p.consumer_list i)) [
  | inl out ↦ cc (rw (out, step_at) at e)
  | inr (c, at) ↦
      put_at-step p p' i c (f c) v at
        (λ c' e'. own c c' (get_elem?-IsReady p.consumer_list i c v.ready at) e')
        (rw (at, step_at) at e)
]

-- A step of any thread or producer keeps the system sound: the free list is what the consumers hold,
-- each consumer handles its datum under its mutex, and no thread sleeps over a new datum.
pub step-IsSound : (a : Act) (p p' : Dispatcher) → IsSound p → step a p ≡ some p' → IsSound p'
unfolding step
step-IsSound (produce d) p p' v e = subst IsSound (ground arith) (feed_running-IsSound p d v)
step-IsSound wake p p' v e = wake-IsSound p p' v e
step-IsSound lock_data p p' v e = lock-IsSound p p' v e
step-IsSound dispatch p p' v e = dispatch-IsSound p p' v e
step-IsSound (wake_at i) p p' v e =
    own_step p p' i consumer_wake v
      (λ c c' r e'. (wake-IsReady c c' r e', λ q. held-consumer_wake q c c' e')) e
step-IsSound (lock_at i) p p' v e =
    own_step p p' i consumer_lock v
      (λ c c' r e'. (lock-IsReady c c' r e', λ q. held-consumer_lock q c c' e')) e
step-IsSound (run_at i) p p' v e = elim (Option-cases (get_elem? p.consumer_list i)) [
  | inl out ↦ cc (rw (out, step_at) at e)
  | inr (c, at) ↦ run_at-IsSound p p' i c v at (rw (at, step_at) at e)
]
