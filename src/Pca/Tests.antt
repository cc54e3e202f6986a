-- ===== src/Pca/Tests.antt =====
-- A run of the threads of producer_consumer_async.c, and the theorems applied to it.
use csi_hal.Prelude.{
  ℕ, ◌+◌, ◌<◌, ◌≤◌, pos, minus_one, true, ◌≡◌, ◌⊎◌, inl, inr, refl, Option, none, some, List, [],
  ◌∷◌, ◌++◌, arith, if◌then◌else◌, get_elem?, Option-cases, add_u32, sub_u32,
}
use csi_hal.Pca.State.{DataInfo, Consumer, Dispatcher}
use csi_hal.Pca.FreeList.{
  pca_data_free, add_item, pca_add_data_free_item, remove_item, pca_remove_data_free_item,
}
use csi_hal.Pca.Feed.{
  feed_consumer, feed_loop, wake_consumer, wake_loop, pca_feed_consumers, feed_running,
}
use csi_hal.Pca.Threads.{
  pca_dispatcher_create, pca_init_thread_info, pca_add_consumer_processor, dispatcher_start, Act,
  produce, wake, lock_data, dispatch, wake_at, lock_at, run_at, step, step_at, consumer_run,
  dispatcher_wake, dispatcher_lock, dispatcher_run, consumer_wake, consumer_lock,
}
use csi_hal.Pca.RefCount.{holders}
use csi_hal.Pca.Steps.Invariant.{IsSound, create-IsSound}
use csi_hal.Pca.Steps.Sound.{step-IsSound}
use csi_hal.Pca.Steps.Setup.{add_consumer-IsSound, start-IsSound}
use csi_hal.Pca.SetUp.{Processor, create_guarded, add_guarded}
use csi_hal.Pca.SetUp.Session.{created, started, added, create-Session}
use csi_hal.Pca.Ledger.{calls}
use csi_hal.Pca.Progress.{CanStep, IsQuiet, run-IsQuiet}
use csi_hal.Pca.Progress.Measure.{steps_left}
use csi_hal.Pca.Ledger.Conserved.{run, AllFresh, produced_all, run-settles}
use csi_hal.Pca.Release.{Served, any_free, run-releases, feed_consumers-Served}

abbrev frame : DataInfo
frame = record { data_ptr = 40; length = 8; type = 7; consumed_callback = some 1 }

abbrev set_up : Dispatcher
unfolding pca_add_consumer_processor dispatcher_start
set_up = dispatcher_start (
    (pca_add_consumer_processor (pos 0) (pos 7)
      ((pca_add_consumer_processor (pos 0) (pos 7) pca_dispatcher_create).1)).1)

set_up-IsSound : IsSound set_up
unfolding pca_add_consumer_processor dispatcher_start
set_up-IsSound = start-IsSound _ (
    (add_consumer-IsSound (pos 0) (pos 7) _
      ((add_consumer-IsSound (pos 0) (pos 7) pca_dispatcher_create create-IsSound (omega arith)).1)
      (omega arith)).1)

abbrev produced : Option Dispatcher
unfolding step
produced = step (produce frame) set_up

-- What the acts leave, from the last system that can take them.
abbrev after : List Act → Dispatcher → Dispatcher
unfolding step
after [] p = p
after (a ∷ acts) p = elim (step a p) [ none ↦ p | some p' ↦ after acts p' ]

after-IsSound : (acts : List Act) (p : Dispatcher) → IsSound p → IsSound (after acts p)
unfolding step
after-IsSound [] p v = v
after-IsSound (a ∷ acts) p v = elim (Option-cases (step a p)) [
  | inl e ↦ rw (e, after) v
  | inr (p', e) ↦ rw (e, after) (after-IsSound acts p' (step-IsSound a p p' v e))
]

-- Both consumers take the datum; the first of them has it under its mutex, then lets it go.
abbrev fed_acts : List Act
fed_acts = produce frame ∷ wake ∷ lock_data ∷ dispatch ∷ wake_at 0 ∷ lock_at 0 ∷ []

abbrev fed : Dispatcher
fed = after fed_acts set_up

abbrev one_done : Dispatcher
one_done = after (run_at 0 ∷ wake_at 1 ∷ lock_at 1 ∷ []) fed

abbrev all_done : Dispatcher
all_done = after (run_at 1 ∷ []) one_done

-- The run computed: two holders, then one, and the callback once, at the end.
outcome :
    (holders 40 fed.consumer_list ≡ 2)
    × (holders 40 one_done.consumer_list ≡ 1)
    × (fed.consumed ≡ [])
    × (one_done.consumed ≡ [])
    × (all_done.consumed ≡ frame ∷ [])
    × (all_done.processed ≡ frame ∷ frame ∷ [])
unfolding add_u32 sub_u32 pca_data_free add_item pca_add_data_free_item remove_item
    pca_remove_data_free_item feed_consumer feed_loop wake_consumer wake_loop pca_feed_consumers
    feed_running pca_add_consumer_processor dispatcher_start dispatcher_wake dispatcher_lock
    dispatcher_run consumer_wake consumer_lock consumer_run step_at step holders after set_up
outcome = (refl, refl, refl, refl, refl, refl)

fed-IsSound : IsSound fed
fed-IsSound = after-IsSound fed_acts set_up set_up-IsSound

step-IsSound_example : IsSound (after (run_at 0 ∷ []) fed)
unfolding add_u32 sub_u32 pca_data_free add_item pca_add_data_free_item remove_item
    pca_remove_data_free_item feed_consumer feed_loop wake_consumer wake_loop pca_feed_consumers
    feed_running pca_add_consumer_processor dispatcher_start dispatcher_wake dispatcher_lock
    dispatcher_run consumer_wake consumer_lock consumer_run step_at step holders after set_up
step-IsSound_example = step-IsSound (run_at 0) fed _ fed-IsSound refl

abbrev sorter : Processor
sorter = record { has_process = true; data_type = pos 3 }

-- A dispatcher that runs, with a consumer whose thread did not start.
abbrev joined : Dispatcher
unfolding dispatcher_start pca_add_consumer_processor
joined = (pca_add_consumer_processor (pos 11) (pos 3) (dispatcher_start pca_dispatcher_create)).1

create-Session_example : IsSound joined
unfolding create_guarded add_guarded dispatcher_start pca_add_consumer_processor
create-Session_example = create-Session true true true refl (
    added (added (started created) true (pos 11) (pos 11) (some sorter) (omega arith) refl) true
      (pos 0) (pos 1) none (omega arith) refl)

-- The consumer at a place of a list that has it.
abbrev consumer_at : ℕ → List Consumer → Consumer
consumer_at i cs = elim (get_elem? cs i) [
  | none ↦ record { thread_info = pca_init_thread_info; data_type = minus_one }
  | some c ↦ c
]

abbrev second : Consumer
second = consumer_at 1 one_done.consumer_list

run-releases_example :
    let q = second.thread_info.data_info.data_ptr in
    ((all_done.consumed ≡ one_done.consumed) × (0 < holders q all_done.consumer_list))
    ⊎ ((x : DataInfo) × (all_done.consumed ≡ one_done.consumed ++ (x ∷ []))
        × (x.data_ptr ≡ q)
        × (holders q all_done.consumer_list ≡ 0))
unfolding add_u32 sub_u32 pca_data_free add_item pca_add_data_free_item remove_item
    pca_remove_data_free_item feed_consumer feed_loop wake_consumer wake_loop pca_feed_consumers
    feed_running pca_add_consumer_processor dispatcher_start dispatcher_wake dispatcher_lock
    dispatcher_run consumer_wake consumer_lock consumer_run step_at step holders after set_up
run-releases_example =
    run-releases one_done all_done 1 second
      (after-IsSound (run_at 0 ∷ wake_at 1 ∷ lock_at 1 ∷ []) fed fed-IsSound) refl refl refl

feed_consumers-Served_example :
    let (ret, p') = pca_feed_consumers one_done frame in
    (ret ≡ (if any_free frame one_done.consumer_list then pos 0 else minus_one))
    × ((c' : Consumer) × (get_elem? p'.consumer_list 1 ≡ some c') × Served frame second c')
unfolding add_u32 sub_u32 pca_data_free add_item pca_add_data_free_item remove_item
    pca_remove_data_free_item feed_consumer feed_loop wake_consumer wake_loop pca_feed_consumers
    feed_running pca_add_consumer_processor dispatcher_start dispatcher_wake dispatcher_lock
    dispatcher_run consumer_wake consumer_lock consumer_run step_at step holders after set_up
feed_consumers-Served_example =
    feed_consumers-Served one_done frame 1 second
      (after-IsSound (run_at 0 ∷ wake_at 1 ∷ lock_at 1 ∷ []) fed fed-IsSound) refl

whole_run : List Act
whole_run =
    produce frame
    ∷ wake
    ∷ lock_data
    ∷ dispatch
    ∷ wake_at 0
    ∷ lock_at 0
    ∷ run_at 0
    ∷ wake_at 1
    ∷ lock_at 1
    ∷ run_at 1
    ∷ []

run-settles_example :
    calls 40 all_done.consumed ≡ calls 40 set_up.consumed + produced_all 40 whole_run
unfolding add_u32 sub_u32 pca_data_free add_item pca_add_data_free_item remove_item
    pca_remove_data_free_item feed_consumer feed_loop wake_consumer wake_loop pca_feed_consumers
    feed_running pca_add_consumer_processor dispatcher_start dispatcher_wake dispatcher_lock
    dispatcher_run consumer_wake consumer_lock consumer_run step_at step holders after set_up run
    AllFresh whole_run produced_all calls
run-settles_example =
    run-settles 40 whole_run set_up all_done set_up-IsSound
      (tt, (tt, (tt, ((λ h. refl), (tt, (tt, (tt, (tt, (tt, (tt, tt)))))))))) refl (refl, refl)
      (refl, refl)

run-IsQuiet_example :
    (4 + steps_left all_done ≤ steps_left fed) × (CanStep all_done ⊎ IsQuiet all_done)
unfolding add_u32 sub_u32 pca_data_free add_item pca_add_data_free_item remove_item
    pca_remove_data_free_item feed_consumer feed_loop wake_consumer wake_loop pca_feed_consumers
    feed_running pca_add_consumer_processor dispatcher_start dispatcher_wake dispatcher_lock
    dispatcher_run consumer_wake consumer_lock consumer_run step_at step holders after set_up run
run-IsQuiet_example =
    run-IsQuiet (run_at 0 ∷ wake_at 1 ∷ lock_at 1 ∷ run_at 1 ∷ []) fed all_done fed-IsSound
      (refl, (refl, (refl, (refl, tt)))) refl
