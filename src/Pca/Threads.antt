-- ===== src/Pca/Threads.antt =====
-- The threads of producer_consumer_async.c step by step: `_pca_thread_dispatcher`,
-- `_pca_thread_consumer`, and the calls that set them up. A pass over the consumers is one step.
use csi_hal.Prelude.{
  ℕ, ◌-◌, ℤ, is_zero, Bool, true, false, not, ◌||◌, Option, none, some, List, [], ◌∷◌, ◌++◌, ◌==◌,
  if◌then◌else◌, get_elem?, set,
}
use csi_hal.Pca.State.{
  DataInfo, Statistics, Phase, waiting, woken, holding, ThreadInfo, Consumer, Dispatcher,
  bump_consumed, takes,
}
use csi_hal.Pca.FreeList.{pca_data_free, pca_remove_data_free_item}
use csi_hal.Pca.Feed.{pca_feed_consumers, feed_running}

abbrev pub no_data : DataInfo
no_data = record { data_ptr = 0; length = 0; type = 0; consumed_callback = none }

-- `_pca_init_thread_info`
abbrev pub pca_init_thread_info : ThreadInfo
pca_init_thread_info = record {
  sem_wakeup = 0;
  is_running = false;
  data_info = no_data;
  has_new_data = false;
  need_unlock_data_mutex = false;
  mutex_data = false;
  stats = record {
    total_delivered = 0;
    total_discarded = 0;
    total_updated = 0;
    total_consumed = 0;
  };
  phase = waiting;
}

-- `pca_dispatcher_create`, on pointers that are not NULL, with memory
abbrev pub pca_dispatcher_create : Dispatcher
pca_dispatcher_create = record {
  thread_info = pca_init_thread_info;
  consumer_list = [];
  data_free_list = [];
  consumed = [];
  processed = [];
}

-- `pca_add_consumer_processor` on pointers that are not NULL: `created` is the code of
-- `pthread_create`. The consumer stays in the list when it has no thread.
unfoldable pub pca_add_consumer_processor : ℤ → ℤ → Dispatcher → ℤ × Dispatcher
pca_add_consumer_processor created data_type p =
    let c : Consumer = record { thread_info = pca_init_thread_info; data_type = data_type } in
    (created, record p { consumer_list = p.consumer_list ++ (c ∷ []) })

-- The head of `_pca_thread_dispatcher`.
unfoldable pub dispatcher_start : Dispatcher → Dispatcher
dispatcher_start p = record p { thread_info = record (p.thread_info) { is_running = true } }

abbrev pub is_phase : Phase → Phase → Bool
is_phase waiting waiting = true
is_phase woken woken = true
is_phase holding holding = true
is_phase _ _ = false

abbrev pub lock : ThreadInfo → ThreadInfo
lock t = record t { mutex_data = true; phase = holding }

-- `sem_wait`. Here and below `none` means that the thread cannot take the step.
unfoldable pub dispatcher_wake : Dispatcher → Option Dispatcher
dispatcher_wake p =
    let t = p.thread_info in
    if not (is_phase t.phase waiting) || t.sem_wakeup == 0
    then none
    else some (record p { thread_info = record t { sem_wakeup = t.sem_wakeup - 1; phase = woken } })

-- `pthread_mutex_lock`
unfoldable pub dispatcher_lock : Dispatcher → Option Dispatcher
dispatcher_lock p =
    let t = p.thread_info in
    if not (is_phase t.phase woken) || t.mutex_data
    then none
    else some (record p { thread_info = lock t })

-- The rest of the turn, to `pthread_mutex_unlock`.
unfoldable pub dispatcher_run : Dispatcher → Option Dispatcher
dispatcher_run p =
    let (ret, q) = pca_feed_consumers p p.thread_info.data_info in
    let t = q.thread_info in
    let consumed : List DataInfo =
      if is_zero ret then q.consumed else pca_data_free t.data_info q.consumed in
    if not (is_phase p.thread_info.phase holding)
    then none
    else some (record q {
      thread_info = record t {
        has_new_data = false;
        mutex_data = false;
        stats = bump_consumed t.stats;
        phase = waiting;
      };
      consumed = consumed;
    })

-- `sem_wait` of a consumer, and its check of `has_new_data`
unfoldable pub consumer_wake : Consumer → Option Consumer
consumer_wake c =
    let t = c.thread_info in
    let next : Phase = if t.has_new_data then woken else waiting in
    if not (is_phase t.phase waiting) || t.sem_wakeup == 0
    then none
    else some (record c { thread_info = record t { sem_wakeup = t.sem_wakeup - 1; phase = next } })

unfoldable pub consumer_lock : Consumer → Option Consumer
consumer_lock c =
    let t = c.thread_info in
    if not (is_phase t.phase woken) || t.mutex_data
    then none
    else some (record c { thread_info = lock t })

-- The rest of the turn: `process` if the type is the consumer's, the reference, the unlock.
unfoldable pub consumer_run : ℕ → Consumer → Dispatcher → Option Dispatcher
consumer_run i c p =
    let t = c.thread_info in
    let d = t.data_info in
    let (items, consumed) = pca_remove_data_free_item d p.data_free_list p.consumed in
    let stats : Statistics = if takes c d then bump_consumed t.stats else t.stats in
    let c' = record c {
      thread_info = record t {
        has_new_data = false;
        mutex_data = false;
        stats = stats;
        phase = waiting;
      };
    } in
    if not (is_phase t.phase holding)
    then none
    else some (record p {
      consumer_list = set p.consumer_list i c';
      data_free_list = items;
      consumed = consumed;
      processed = if takes c d then p.processed ++ (d ∷ []) else p.processed;
    })

-- A step of the system: a producer's call, or a thread's; `i` is the place of a consumer in the list.
pub data Act : Type 0 where
  produce : DataInfo → Act
  wake lock_data dispatch : Act
  wake_at lock_at run_at : ℕ → Act

abbrev pub put_at : ℕ → Dispatcher → Option Consumer → Option Dispatcher
put_at i p none = none
put_at i p (some c) = some (record p { consumer_list = set p.consumer_list i c })

unfoldable pub step_at : ℕ → (Consumer → Option Dispatcher) → Dispatcher → Option Dispatcher
step_at i f p = elim (get_elem? p.consumer_list i) [ none ↦ none | some c ↦ f c ]

-- A producer waits until the dispatcher runs, and its datum is not NULL.
unfoldable pub step : Act → Dispatcher → Option Dispatcher
unfolding step_at
step (produce d) p =
    if not (p.thread_info.is_running) || d.data_ptr == 0 then none else some (feed_running p d)
step wake p = dispatcher_wake p
step lock_data p = dispatcher_lock p
step dispatch p = dispatcher_run p
step (wake_at i) p = step_at i (λ c. put_at i p (consumer_wake c)) p
step (lock_at i) p = step_at i (λ c. put_at i p (consumer_lock c)) p
step (run_at i) p = step_at i (λ c. consumer_run i c p) p
