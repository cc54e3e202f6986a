-- ===== src/Pca/Ledger/Conserved.antt =====
-- No callback is lost and none is made twice, at any step of producer_consumer_async.c and over runs.
use csi_hal.Prelude.{
  ℕ, ◌+◌, ◌≡◌, ap, sym, ◌∙◌, true, false, Option, none, some, List, [], ◌∷◌, arith, Option-cases,
  inl, inr, get_elem?,
}
use mathlib.Core.Path.{subst}
use mathlib.Core.Option.{some-injective}
use csi_hal.Pca.State.{DataInfo, Consumer, Dispatcher}
use csi_hal.Pca.Feed.{Loop, feed_loop, feed_running, pca_feed_consumers}
use csi_hal.Pca.Threads.{
  Act, produce, wake, lock_data, dispatch, wake_at, lock_at, run_at, put_at, dispatcher_wake,
  dispatcher_lock, dispatcher_run, consumer_wake, consumer_lock, consumer_run, step_at, step,
}
use csi_hal.Pca.RefCount.{counted, holders, has_callback}
use csi_hal.Pca.Steps.Consumers.{get_elem?-IsReady}
use csi_hal.Pca.Steps.Invariant.{IsSound}
use csi_hal.Pca.Steps.Sound.{step-IsSound, consumer_run-Rested}
use csi_hal.Pca.Ledger.{calls, listed_once, pending, account, calls-data_free, remove-kept}
use csi_hal.Pca.Ledger.Loop.{feed_loop-settled}

-- The callbacks on a pointer that an act brings in.
abbrev pub produced : ℕ → Act → ℕ
produced q (produce d) = counted q d
produced q _ = 0

-- A datum that is handed to the consumers is one that none of them still holds.
abbrev pub IsFresh : Act → Dispatcher → Type 0
IsFresh dispatch p =
    let d = p.thread_info.data_info in
    has_callback d ≡ true → holders d.data_ptr p.consumer_list ≡ 0
IsFresh _ p = Unit {0}

module _ (q : ℕ) (p p' : Dispatcher) where
  produce-account : (d : DataInfo) → account q (feed_running p d) ≡ account q p + counted q d
  unfolding feed_running
  produce-account d =
      ground (
        arith,
        calls-data_free q d p.consumed,
        calls-data_free q p.thread_info.data_info p.consumed,
      )

  wake-account : dispatcher_wake p ≡ some p' → account q p' ≡ account q p
  unfolding dispatcher_wake
  wake-account e = ground arith

  lock-account : dispatcher_lock p ≡ some p' → account q p' ≡ account q p
  unfolding dispatcher_lock
  lock-account e = ground arith

  -- What a put of one consumer leaves of the rest.
  put_at-account :
      (i : ℕ) (o : Option Consumer) → put_at i p o ≡ some p' → account q p' ≡ account q p
  put_at-account i none e = cc
  put_at-account i (some c) e = ap (account q) (sym (some-injective _ _ e))

  run_at-account :
      (i : ℕ) (c : Consumer)
      → IsSound p
      → get_elem? p.consumer_list i ≡ some c
      → consumer_run i c p ≡ some p'
      → account q p' ≡ account q p
  run_at-account i c v at e =
      let (c', rested) =
        consumer_run-Rested p p' i c (get_elem?-IsReady p.consumer_list i c v.ready at) e in
      let (cs, items, made, t, _, _, _) = rested in
      let kept = remove-kept q c.thread_info.data_info p.data_free_list p.consumed v.counted.good in
      omega (arith, ap (calls q) made, ap (listed_once q) items, ap (pending q) t, kept)

  dispatch-account :
      IsSound p → IsFresh dispatch p → dispatcher_run p ≡ some p' → account q p' ≡ account q p
  unfolding dispatcher_run pca_feed_consumers
  dispatch-account v fresh e =
      let d = p.thread_info.data_info in
      let start : Loop = record {
        items = p.data_free_list;
        consumed = p.consumed;
        data_feed = false;
      } in
      let (cs, l) = feed_loop d p.consumer_list start in
      let ready = v.dispatcher in
      let whole =
        feed_loop-settled q (λ q. 0) d p.consumer_list start (λ q. omega (arith, v.counted.few))
          (v.counted.good, λ q. omega (arith, v.counted.counts q)) (λ one. ground (arith, fresh)) in
      ground (arith, whole, calls-data_free q d l.consumed)

  own-account :
      (i : ℕ) (f : Consumer → Option Consumer)
      → step_at i (λ c. put_at i p (f c)) p ≡ some p'
      → account q p' ≡ account q p
  unfolding step_at
  own-account i f e = elim (Option-cases (get_elem? p.consumer_list i)) [
    | inl out ↦ cc (rw (out, step_at) at e)
    | inr (c, at) ↦ put_at-account i (f c) (rw (at, step_at) at e)
  ]

-- Every step of a sound system keeps the account of every pointer: the callbacks made on it, plus
-- one if consumers hold it, plus one if the dispatcher does, grows by what a producer brings in and
-- by nothing else, given that a dispatched datum is one that no consumer still holds.
pub step-account :
    (q : ℕ) (a : Act) (p p' : Dispatcher)
    → IsSound p
    → IsFresh a p
    → step a p ≡ some p'
    → account q p' ≡ account q p + produced q a
unfolding step
step-account q (produce d) p p' v f e =
    ap (account q) {x = p'} {y = feed_running p d} (ground arith) ∙ produce-account q p p' d
step-account q wake p p' v f e = omega (arith, wake-account q p p' e)
step-account q lock_data p p' v f e = omega (arith, lock-account q p p' e)
step-account q dispatch p p' v f e = omega (arith, dispatch-account q p p' v f e)
step-account q (wake_at i) p p' v f e = omega (arith, own-account q p p' i consumer_wake e)
step-account q (lock_at i) p p' v f e = omega (arith, own-account q p p' i consumer_lock e)
step-account q (run_at i) p p' v f e = elim (Option-cases (get_elem? p.consumer_list i)) [
  | inl out ↦ cc (rw (out, step_at) at e)
  | inr (c, at) ↦ omega (arith, run_at-account q p p' i c v at (rw (at, step_at) at e))
]

-- A run of the threads in some order; `none` where one of them cannot take its step.
unfoldable pub run : List Act → Dispatcher → Option Dispatcher
unfolding step
run [] p = some p
run (a ∷ acts) p = elim (step a p) [ none ↦ none | some p' ↦ run acts p' ]

unfoldable pub produced_all : ℕ → List Act → ℕ
produced_all q [] = 0
produced_all q (a ∷ acts) = produced q a + produced_all q acts

-- Every datum of the run is fresh when it is dispatched.
unfoldable pub AllFresh : List Act → Dispatcher → Type 0
unfolding step
AllFresh [] p = Unit {0}
AllFresh (a ∷ acts) p =
    IsFresh a p × (elim (step a p) [ none ↦ Unit {0} | some p' ↦ AllFresh acts p' ])

-- No consumer and no dispatcher holds the pointer.
abbrev pub IsIdle : ℕ → Dispatcher → Type 0
IsIdle q p = (holders q p.consumer_list ≡ 0) × (pending q p.thread_info ≡ 0)

pub run-account :
    (q : ℕ) (acts : List Act) (p p' : Dispatcher)
    → IsSound p
    → AllFresh acts p
    → run acts p ≡ some p'
    → (account q p' ≡ account q p + produced_all q acts) × IsSound p'
unfolding run produced_all AllFresh
run-account q [] p p' v f e =
    let same = some-injective _ _ e in
    (ap (account q) (sym same) ∙ ground arith, subst IsSound same v)
run-account q (a ∷ acts) p p' v f e = elim (Option-cases (step a p)) [
  | inl out ↦ cc (rw (out, run) at e)
  | inr (p₁, moved) ↦
      let sound = step-IsSound a p p₁ v moved in
      let (rest, v') =
        run-account q acts p₁ p' sound (rw (moved, AllFresh) at f).1 (rw (moved, run) at e) in
      (omega (arith, rest, step-account q a p p₁ v f.0 moved), v')
]

-- Whatever order the threads run in from a sound system that does not hold a pointer: when nothing
-- holds it again, its callback has been made in the run exactly as often as producers fed the
-- pointer, so none is lost and none is made twice. Each datum is to be fresh when it is dispatched.
pub run-settles :
    (q : ℕ) (acts : List Act) (p p' : Dispatcher)
    → IsSound p
    → AllFresh acts p
    → run acts p ≡ some p'
    → IsIdle q p
    → IsIdle q p'
    → calls q p'.consumed ≡ calls q p.consumed + produced_all q acts
run-settles q acts p p' v f e before after =
    let (whole, v') = run-account q acts p p' v f e in
    ground
      (arith, whole, v.counted.counts q, v'.counted.counts q, before.0, before.1, after.0, after.1)
