-- ===== src/Pca/Stop/Freed.antt =====
-- When a stop of the dispatcher of producer_consumer_async.c has a defined result.
use csi_hal.Prelude.{
  ℕ, suc, pos, ◌≡◌, refl, false, ◌&&◌, none, some, List, [], ◌∷◌, arith, if◌then◌else◌, is_empty,
}
use csi_hal.Llist.{Memory}
use csi_hal.Llist.Refine.{IsList}
use csi_hal.Llist.Taking.{next-node}
use csi_hal.Pca.State.{DataInfo, Consumer, FreeItem}
use csi_hal.Pca.Stop.{Nodes, flush_from, pca_flush_data_free_list, stop_from, pca_dispatcher_stop}

stop_from-first :
    (fuel head : ℕ) (m : Memory Consumer) (s : List Consumer)
    → IsList m head s
    → stop_from (suc fuel) head (m.next head) m ≡ (if is_empty s then some m else none)
unfolding stop_from
stop_from-first fuel head m [] l = rw (next-node [] l) refl
stop_from-first fuel head m (c ∷ s) l =
    let (apart, live) = next-node (c ∷ s) l in ground (arith, apart, live)

flush_from-first :
    (fuel head : ℕ) (m : Memory FreeItem) (s : List FreeItem) (consumed : List DataInfo)
    → IsList m head s
    → flush_from (suc fuel) head (m.next head) m consumed
      ≡ (if is_empty s then some (m, consumed) else none)
unfolding flush_from
flush_from-first fuel head m [] consumed l = rw (next-node [] l) refl
flush_from-first fuel head m (c ∷ s) consumed l =
    let (apart, live) = next-node (c ∷ s) l in ground (arith, apart, live)

-- pca_dispatcher_stop with any fuel returns 0, and marks the dispatcher's thread as stopped, where there is no
-- consumer and no datum that consumers hold. Else it has no defined result: its loops step from a node that they have
-- freed.
pub dispatcher_stop-defined :
    (fuel : ℕ) (d : Nodes) (consumers : List Consumer) (items : List FreeItem)
    → IsList d.consumers d.consumer_list consumers
    → IsList d.items d.data_free_list items
    → pca_dispatcher_stop (suc fuel) (some d) ≡ (
        if is_empty consumers && is_empty items
        then some
            (pos 0, some (record d { thread_info = record (d.thread_info) { is_running = false } }))
        else none)
unfolding pca_dispatcher_stop pca_flush_data_free_list
dispatcher_stop-defined fuel d [] [] l l' =
    rw
      (
        stop_from-first fuel d.consumer_list d.consumers [] l,
        flush_from-first fuel d.data_free_list d.items [] d.consumed l',
      )
      refl
dispatcher_stop-defined fuel d [] (i ∷ items) l l' =
    rw
      (
        stop_from-first fuel d.consumer_list d.consumers [] l,
        flush_from-first fuel d.data_free_list d.items (i ∷ items) d.consumed l',
      )
      refl
dispatcher_stop-defined fuel d (c ∷ consumers) items l l' =
    rw (stop_from-first fuel d.consumer_list d.consumers (c ∷ consumers) l) refl
