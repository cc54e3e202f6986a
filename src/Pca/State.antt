-- ===== src/Pca/State.antt =====
-- The structs of include/common/producer_consumer_async.h. A mutex is whether it is held, a
-- semaphore its value. The lists that the code builds with list.h are sequences here.
use csi_hal.Prelude.{ℕ, ℤ, to_u32, Bool, Option, List, add_u32, ◌==◌}

-- `pca_data_info_t`: pointers are numbers, 0 for NULL; a callback is named by a number.
pub record DataInfo : Type 0 where
  pub data_ptr : ℕ
  pub length : ℕ
  pub type : ℕ
  pub consumed_callback : Option ℕ

-- `pca_data_statistics_t`, each a `uint32_t`
pub record Statistics : Type 0 where
  pub total_delivered : ℕ
  pub total_discarded : ℕ
  pub total_updated : ℕ
  pub total_consumed : ℕ

-- Where a thread stands in its loop: in `sem_wait`, behind the check of `has_new_data`, or holding
-- `mutex_data`.
pub data Phase : Type 0 where
  waiting woken holding : Phase

-- `pca_thread_info_t`, with the phase of its thread; its name and thread id are only printed and
-- joined.
pub record ThreadInfo : Type 0 where
  pub sem_wakeup : ℕ
  pub is_running : Bool
  pub data_info : DataInfo
  pub has_new_data : Bool
  pub need_unlock_data_mutex : Bool
  pub mutex_data : Bool
  pub stats : Statistics
  pub phase : Phase

-- `pca_consumer_list_info_t`: its processor is the type of data that it takes.
pub record Consumer : Type 0 where
  pub thread_info : ThreadInfo
  pub data_type : ℤ

-- `pca_data_free_list_info_t`
pub record FreeItem : Type 0 where
  pub data_info : DataInfo
  pub reference_count : ℕ

-- `pca_dispatcher_info_t`, with what the code does outside: the calls of `consumed_callback` and of
-- `process`, in order.
pub record Dispatcher : Type 0 where
  pub thread_info : ThreadInfo
  pub consumer_list : List Consumer
  pub data_free_list : List FreeItem
  pub consumed : List DataInfo
  pub processed : List DataInfo

abbrev pub bump_delivered : Statistics → Statistics
bump_delivered s = record s { total_delivered = add_u32 s.total_delivered 1 }

abbrev pub bump_discarded : Statistics → Statistics
bump_discarded s = record s { total_discarded = add_u32 s.total_discarded 1 }

abbrev pub bump_updated : Statistics → Statistics
bump_updated s = record s { total_updated = add_u32 s.total_updated 1 }

abbrev pub bump_consumed : Statistics → Statistics
bump_consumed s = record s { total_consumed = add_u32 s.total_consumed 1 }

-- `data_info->type == processor.data_type`: the `int` is compared as unsigned.
abbrev pub takes : Consumer → DataInfo → Bool
takes c d = d.type == to_u32 c.data_type
