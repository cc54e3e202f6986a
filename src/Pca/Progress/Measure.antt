-- ===== src/Pca/Progress/Measure.antt =====
-- How many steps the threads of producer_consumer_async.c have before them.
use mathlib.Core.Path.{subst}
use native.Mathlib.Nat.{mul-le-mul_right}
use csi_hal.Prelude.{
  ℕ, zero, suc, ◌+◌, ◌*◌, ◌<◌, ◌≤◌, ◌≡◌, refl, ap, Bool, true, false, Option, some, List, [], ◌∷◌,
  ◌++◌, arith, length, length-set, get_elem?, set, if◌then◌else◌, Bool-cases, Option-cases, inl,
  inr,
}
use csi_hal.Pca.State.{
  DataInfo, Phase, waiting, woken, holding, ThreadInfo, Consumer, Dispatcher, takes, bump_consumed,
}
use csi_hal.Pca.FreeList.{pca_remove_data_free_item}
use csi_hal.Pca.Feed.{Loop, feed_consumer, feed_loop, wake_consumer, wake_loop, pca_feed_consumers}
use csi_hal.Pca.Threads.{
  Act, produce, wake, lock_data, dispatch, wake_at, lock_at, run_at, step, step_at, is_phase,
  dispatcher_wake, dispatcher_lock, dispatcher_run, consumer_wake, consumer_lock, consumer_run,
  put_at,
}

-- The steps to the end of a turn
abbrev pub turn_left : Phase → ℕ
turn_left waiting = 0
turn_left woken = 2
turn_left holding = 1

-- Each post of the semaphore starts a turn of three steps at most.
abbrev pub work : ThreadInfo → ℕ
work t = 3 * t.sem_wakeup + turn_left t.phase

abbrev pub all_work : List Consumer → ℕ
all_work [] = 0
all_work (c ∷ cs) = work c.thread_info + all_work cs

-- A pass of the dispatcher may post each consumer once.
abbrev pub steps_left : Dispatcher → ℕ
steps_left p = work p.thread_info * (3 * length p.consumer_list + 1) + all_work p.consumer_list

feed_wake-work :
    (d : DataInfo) (c : Consumer) (l : Loop)
    → work (wake_consumer (feed_consumer d c l).0).thread_info ≤ work c.thread_info + 3
unfolding feed_consumer wake_consumer
feed_wake-work d c l = ground arith

feed_wake-all_work :
    (d : DataInfo) (cs : List Consumer) (l : Loop)
    → (all_work (wake_loop (feed_loop d cs l).0) ≤ all_work cs + 3 * length cs)
      × (length (wake_loop (feed_loop d cs l).0) ≡ length cs)
unfolding feed_loop wake_loop
feed_wake-all_work d [] l = (omega arith, refl)
feed_wake-all_work d (c ∷ cs) l =
    let (less, same) = feed_wake-all_work d cs (feed_consumer d c l).1 in
    (omega (arith, feed_wake-work d c l, less), ap suc same)

set-all_work :
    (cs : List Consumer) (i : ℕ) (c c' : Consumer)
    → get_elem? cs i ≡ some c
    → all_work (set cs i c') + work c.thread_info ≡ all_work cs + work c'.thread_info
set-all_work [] i c c' at = cc
set-all_work (b ∷ cs) zero c c' at =
    let e : b ≡ c = cc in let w = ap (λ z. work z.thread_info) e in omega arith
set-all_work (b ∷ cs) (suc i) c c' at = omega (arith, set-all_work cs i c c' at)

-- The act of a thread, not of a producer
abbrev pub is_thread : Act → Bool
is_thread (produce d) = false
is_thread wake = true
is_thread lock_data = true
is_thread dispatch = true
is_thread (wake_at i) = true
is_thread (lock_at i) = true
is_thread (run_at i) = true

turn-waiting : (ph : Phase) → is_phase ph waiting ≡ true → turn_left ph ≡ 0
turn-waiting waiting h = refl
turn-waiting woken h = cc
turn-waiting holding h = cc

turn-woken : (ph : Phase) → is_phase ph woken ≡ true → turn_left ph ≡ 2
turn-woken waiting h = cc
turn-woken woken h = refl
turn-woken holding h = cc

turn-holding : (ph : Phase) → is_phase ph holding ≡ true → turn_left ph ≡ 1
turn-holding waiting h = cc
turn-holding woken h = cc
turn-holding holding h = refl

turn-next : (b : Bool) → turn_left (if b then woken else waiting) ≤ 2
turn-next true = omega arith
turn-next false = omega arith

wake_less : (c c' : Consumer) → consumer_wake c ≡ some c' → work c'.thread_info < work c.thread_info
unfolding consumer_wake
wake_less c c' e =
    ground (arith, turn-waiting c.thread_info.phase, turn-next c.thread_info.has_new_data)

lock_less : (c c' : Consumer) → consumer_lock c ≡ some c' → work c'.thread_info < work c.thread_info
unfolding consumer_lock
lock_less c c' e = ground (arith, turn-woken c.thread_info.phase)

-- A step that changes one consumer
replace_less :
    (p : Dispatcher) (i : ℕ) (c c' : Consumer)
    → get_elem? p.consumer_list i ≡ some c
    → work c'.thread_info < work c.thread_info
    → steps_left (record p { consumer_list = set p.consumer_list i c' }) < steps_left p
replace_less p i c c' at less =
    rw (length-set p.consumer_list i c') (omega (arith, set-all_work p.consumer_list i c c' at))

-- A step of the dispatcher that may post each of `k` consumers
turn_less :
    (w' w k a' a : ℕ) → w' < w → a' ≤ a + 3 * k → w' * (3 * k + 1) + a' < w * (3 * k + 1) + a
turn_less w' w k a' a h l =
    let more : (suc w') * (3 * k + 1) ≤ w * (3 * k + 1) = mul-le-mul_right (3 * k + 1) h in
    omega arith

own_turn_less :
    (p p' : Dispatcher)
    → work p'.thread_info < work p.thread_info
    → p'.consumer_list ≡ p.consumer_list
    → steps_left p' < steps_left p
own_turn_less p p' h same = rw same (
    turn_less (work p'.thread_info) (work p.thread_info) (length p.consumer_list)
      (all_work p.consumer_list) (all_work p.consumer_list) h (omega arith))

-- A step of one consumer by itself
own_less :
    (i : ℕ) (f : Consumer → Option Consumer) (p p' : Dispatcher)
    → ((c c' : Consumer) → f c ≡ some c' → work c'.thread_info < work c.thread_info)
    → step_at i (λ c. put_at i p (f c)) p ≡ some p'
    → steps_left p' < steps_left p
unfolding step_at
own_less i f p p' less e = elim (Option-cases (get_elem? p.consumer_list i)) [
  | inl out ↦ cc (rw (out, step_at) at e)
  | inr (c, at) ↦ elim (Option-cases (f c)) [
    | inl stuck ↦ cc (rw (at, stuck, step_at) at e)
    | inr (c', moved) ↦
        let same : record p { consumer_list = set p.consumer_list i c' } ≡ p' =
          let e' = rw (at, moved, step_at) at e in cc in
        subst (λ z. steps_left z < steps_left p) same (replace_less p i c c' at (less c c' moved))
  ]
]

run_at_less :
    (i : ℕ) (p p' : Dispatcher)
    → step_at i (λ c. consumer_run i c p) p ≡ some p'
    → steps_left p' < steps_left p
unfolding step_at consumer_run
run_at_less i p p' e = elim (Option-cases (get_elem? p.consumer_list i)) [
  | inl out ↦ cc (rw (out, step_at) at e)
  | inr (c, at) ↦ elim (Bool-cases (is_phase c.thread_info.phase holding)) [
    | inr off ↦ let e' = rw (at, off, step_at) at e in cc
    | inl held ↦
        let t = c.thread_info in
        let (items, consumed) = pca_remove_data_free_item t.data_info p.data_free_list p.consumed in
        let c' : Consumer = record c {
          thread_info = record t {
            has_new_data = false;
            mutex_data = false;
            stats = if takes c t.data_info then bump_consumed t.stats else t.stats;
            phase = waiting;
          };
        } in
        let same : record p {
          consumer_list = set p.consumer_list i c';
          data_free_list = items;
          consumed = consumed;
          processed =
              if takes c t.data_info then p.processed ++ (t.data_info ∷ []) else p.processed;
        }
            ≡ p' =
          let e' = rw (at, held, step_at) at e in cc in
        subst (λ z. steps_left z < steps_left p) same
          (replace_less p i c c' at (ground (arith, turn-holding t.phase)))
  ]
]

abbrev start_of : Dispatcher → Loop
start_of p = record { items = p.data_free_list; consumed = p.consumed; data_feed = false }

dispatch_less : (p p' : Dispatcher) → dispatcher_run p ≡ some p' → steps_left p' < steps_left p
unfolding dispatcher_run pca_feed_consumers
dispatch_less p p' e = elim (Bool-cases (is_phase p.thread_info.phase holding)) [
  | inr off ↦ let e' = rw off at e in cc
  | inl held ↦
      let cs = (feed_loop p.thread_info.data_info p.consumer_list (start_of p)).0 in
      let (less, same) = feed_wake-all_work p.thread_info.data_info p.consumer_list (start_of p) in
      let fed : (work p'.thread_info < work p.thread_info) × (p'.consumer_list ≡ wake_loop cs) =
        (ground (arith, turn-holding p.thread_info.phase), ground arith) in
      rw (fed.1, same)
        (turn_less (work p'.thread_info) (work p.thread_info) (length p.consumer_list)
          (all_work (wake_loop cs)) (all_work p.consumer_list) fed.0 less)
]

pub thread-step_less :
    (a : Act) (p p' : Dispatcher)
    → is_thread a ≡ true
    → step a p ≡ some p'
    → steps_left p' < steps_left p
unfolding step dispatcher_wake dispatcher_lock
thread-step_less (produce d) p p' h e = cc
thread-step_less wake p p' h e =
    let moved : (work p'.thread_info < work p.thread_info) × (p'.consumer_list ≡ p.consumer_list) =
      ground (arith, turn-waiting p.thread_info.phase) in
    own_turn_less p p' moved.0 moved.1
thread-step_less lock_data p p' h e =
    let moved : (work p'.thread_info < work p.thread_info) × (p'.consumer_list ≡ p.consumer_list) =
      ground (arith, turn-woken p.thread_info.phase) in
    own_turn_less p p' moved.0 moved.1
thread-step_less dispatch p p' h e = dispatch_less p p' e
thread-step_less (wake_at i) p p' h e = own_less i consumer_wake p p' wake_less e
thread-step_less (lock_at i) p p' h e = own_less i consumer_lock p p' lock_less e
thread-step_less (run_at i) p p' h e = run_at_less i p p' e
