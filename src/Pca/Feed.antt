-- ===== src/Pca/Feed.antt =====
-- Feeding the dispatcher and the consumers (producer_consumer_async.c): `pca_feed_dispatcher` and
-- `pca_feed_consumers`.
use csi_hal.Prelude.{
  ℕ, ℤ, pos, minus_one, Bool, true, false, not, Option, none, some, List, [], ◌∷◌, ◌==◌,
  if◌then◌else◌,
}
use csi_hal.Pca.State.{
  DataInfo, Statistics, ThreadInfo, Consumer, FreeItem, Dispatcher, bump_delivered, bump_discarded,
  bump_updated, takes,
}
use csi_hal.Pca.FreeList.{pca_data_free, pca_add_data_free_item, pca_remove_data_free_item}

-- `sem_post` where `sem_getvalue` gave 0
abbrev pub post_once : ℕ → ℕ
post_once sem = if sem == 0 then 1 else sem

-- What the loop over the consumers changes beside them.
pub record Loop : Type 0 where
  pub items : List FreeItem
  pub consumed : List DataInfo
  pub data_feed : Bool

-- The new datum in the thread's struct.
abbrev pub deliver : ThreadInfo → DataInfo → Statistics → ThreadInfo
deliver t d stats = record t {
  data_info = d;
  has_new_data = true;
  need_unlock_data_mutex = true;
  mutex_data = true;
  stats = stats;
}

-- One turn of the first loop of `pca_feed_consumers`.
unfoldable pub feed_consumer : DataInfo → Consumer → Loop → Consumer × Loop
feed_consumer d c l =
    let t = c.thread_info in
    let stats = bump_delivered t.stats in
    let (kept, consumed) = pca_remove_data_free_item t.data_info l.items l.consumed in
    if not (takes c d)
    then (c, l)
    else if t.mutex_data
    then (record c { thread_info = record t { stats = bump_discarded stats } }, l)
    else if t.has_new_data
    then (
      record c { thread_info = deliver t d (bump_updated stats) },
      record { items = pca_add_data_free_item d kept; consumed = consumed; data_feed = true },
    )
    else (
      record c { thread_info = deliver t d stats },
      record l { items = pca_add_data_free_item d l.items; data_feed = true },
    )

unfoldable pub feed_loop : DataInfo → List Consumer → Loop → List Consumer × Loop
feed_loop d [] l = ([], l)
feed_loop d (c ∷ cs) l =
    let (c', l') = feed_consumer d c l in let (cs', l'') = feed_loop d cs l' in (c' ∷ cs', l'')

-- One turn of the second loop.
unfoldable pub wake_consumer : Consumer → Consumer
wake_consumer c =
    let t = c.thread_info in
    let unlocked : ThreadInfo =
      if t.need_unlock_data_mutex
      then record t { need_unlock_data_mutex = false; mutex_data = false }
      else t in
    record c {
      thread_info =
          if unlocked.has_new_data
          then record unlocked { sem_wakeup = post_once unlocked.sem_wakeup }
          else unlocked;
    }

unfoldable pub wake_loop : List Consumer → List Consumer
wake_loop [] = []
wake_loop (c ∷ cs) = wake_consumer c ∷ wake_loop cs

-- The whole of `pca_feed_consumers` on pointers that are not NULL: the dispatcher loses its flag, and
-- FAILURE says that no consumer took the datum.
unfoldable pub pca_feed_consumers : Dispatcher → DataInfo → ℤ × Dispatcher
pca_feed_consumers p d =
    let start : Loop = record {
      items = p.data_free_list;
      consumed = p.consumed;
      data_feed = false;
    } in
    let (cs, l) = feed_loop d p.consumer_list start in
    (
      if l.data_feed then pos 0 else minus_one,
      record p {
        thread_info = record (p.thread_info) { has_new_data = false };
        consumer_list = wake_loop cs;
        data_free_list = l.items;
        consumed = l.consumed;
      },
    )

-- `pca_feed_dispatcher` behind the wait for the dispatcher thread.
unfoldable pub feed_running : Dispatcher → DataInfo → Dispatcher
feed_running p d =
    let t = p.thread_info in
    let stats = bump_delivered t.stats in
    if t.mutex_data
    then record p {
      thread_info = record t { stats = bump_discarded t.stats };
      consumed = pca_data_free d p.consumed;
    }
    else if t.has_new_data
    then record p {
      thread_info = record t { data_info = d; has_new_data = true; stats = bump_updated stats };
      consumed = pca_data_free t.data_info p.consumed;
    }
    else record p {
      thread_info = record t {
        data_info = d;
        has_new_data = true;
        sem_wakeup = post_once t.sem_wakeup;
        stats = stats;
      };
    }

-- ERRNO_INVALID_PARAMETER is 1. `none` while the dispatcher thread does not run: the call waits.
unfoldable pub pca_feed_dispatcher :
    Option Dispatcher → Option DataInfo → Option (ℤ × Option Dispatcher)
unfolding feed_running
pca_feed_dispatcher none d = some (pos 1, none)
pca_feed_dispatcher (some p) none = some (pos 1, some p)
pca_feed_dispatcher (some p) (some d) =
    if d.data_ptr == 0
    then some (pos 1, some p)
    else if p.thread_info.is_running
    then some (pos 0, some (feed_running p d))
    else none
