-- ===== src/Pca/SetUp.antt =====
-- The calls of producer_consumer_async.c that set a dispatcher up and take it down, with all their
-- guards. ERRNO_INVALID_PARAMETER is 1, and FAILURE is -1.
pub mod Session
use csi_hal.Prelude.{ℤ, pos, minus_one, Bool, true, false, Option, none, some, ◌&&◌, if◌then◌else◌}
use csi_hal.Pca.State.{Dispatcher}
use csi_hal.Pca.Threads.{pca_dispatcher_create, pca_add_consumer_processor}

-- `pca_consumer_processor_info_t`: whether `process` is set, and the type of data; its name is printed.
pub record Processor : Type 0 where
  pub has_process : Bool
  pub data_type : ℤ

-- `pca_dispatcher_create`, of which each pointer is NULL or not; `memory` is whether malloc has some.
unfoldable pub create_guarded : Bool → Bool → Bool → ℤ × Option Dispatcher
create_guarded dispatcher name memory =
    if dispatcher && name && memory then (pos 0, some pca_dispatcher_create) else (pos 1, none)

-- `pca_add_consumer_processor`; `created` is the code of `pthread_create`.
unfoldable pub add_guarded : Bool → ℤ → Option Processor → Option Dispatcher → ℤ × Option Dispatcher
unfolding pca_add_consumer_processor
add_guarded memory created processor none = (pos 1, none)
add_guarded memory created none (some p) = (pos 1, some p)
add_guarded memory created (some processor) (some p) =
    let (ret, p') = pca_add_consumer_processor created processor.data_type p in
    if processor.has_process && memory then (ret, some p') else (pos 1, some p)

-- `pca_remove_consumer_processor` locks and unlocks a mutex of a dispatcher that it takes to be there.
unfoldable pub remove_guarded : Option Dispatcher → Option (ℤ × Dispatcher)
remove_guarded none = none
remove_guarded (some p) = some (minus_one, p)

-- `pca_dispatcher_destory`: the dispatcher is freed.
unfoldable pub destory_guarded : Option Dispatcher → ℤ × Option Dispatcher
destory_guarded none = (pos 1, none)
destory_guarded (some p) = (pos 0, none)
