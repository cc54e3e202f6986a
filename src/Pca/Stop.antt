-- ===== src/Pca/Stop.antt =====
-- The dispatcher of producer_consumer_async.c as its two lists are nodes of list.h in memory: adding a
-- consumer, and stopping. In the stop, a node is read by the loop's step after its body has freed it.
pub mod Freed
mod Tests
use csi_hal.Prelude.{
  ℕ, zero, suc, ℤ, pos, is_zero, Bool, true, false, not, Option, none, some, List, [], ◌∷◌,
  if◌then◌else◌, ◌==◌, ◌>>=◌,
}
use csi_hal.Llist.{Memory, unlink, llist_create, llist_insert, llist_backward}
use csi_hal.Pca.State.{DataInfo, ThreadInfo, Consumer, FreeItem}
use csi_hal.Pca.FreeList.{pca_data_free}
use csi_hal.Pca.Threads.{no_data, pca_init_thread_info}

-- The dispatcher with its lists as nodes, each at its head
pub record Nodes : Type 0 where
  pub thread_info : ThreadInfo
  pub consumers : Memory Consumer
  pub consumer_list : ℕ
  pub items : Memory FreeItem
  pub data_free_list : ℕ
  pub consumed : List DataInfo

abbrev pub no_nodes : {A : Type 0} → A → Memory A
no_nodes a = record { live = λ p. false; prev = λ p. 0; next = λ p. 0; item = λ p. a }

-- What `pca_dispatcher_create` leaves in the struct at an address: both lists are empty.
unfoldable pub created_nodes : ℕ → Nodes
unfolding llist_create
created_nodes address = record {
  thread_info = pca_init_thread_info;
  consumers =
      llist_create address
        (no_nodes (record { thread_info = pca_init_thread_info; data_type = pos 0 }));
  consumer_list = address;
  items = llist_create address (no_nodes (record { data_info = no_data; reference_count = 0 }));
  data_free_list = address;
  consumed = [];
}

-- The loop of `_pca_flush_data_free_list` from `node` on, which is `pos`. Behind the body, `pos->next` is read.
unfoldable pub flush_from :
    ℕ → ℕ → ℕ → Memory FreeItem → List DataInfo → Option (Memory FreeItem × List DataInfo)
flush_from zero head node m consumed = none
flush_from (suc fuel) head node m consumed =
    let m₁ = unlink node m in
    let rest =
      flush_from fuel head (m₁.next node) m₁ (pca_data_free ((m.item node).data_info) consumed) in
    if node == head
    then some (m, consumed)
    else if not (m.live node)
    then none
    else if not (m₁.live node)
    then none
    else rest

unfoldable pub pca_flush_data_free_list : ℕ → Nodes → Option Nodes
unfolding flush_from
pca_flush_data_free_list fuel d =
    flush_from fuel d.data_free_list (d.items.next d.data_free_list) d.items d.consumed
    >>= λ (m, consumed). some (record d { items = m; consumed = consumed })

-- The loop over the consumers of `pca_dispatcher_stop`: the thread is cancelled and joined, and the
-- node freed.
unfoldable pub stop_from : ℕ → ℕ → ℕ → Memory Consumer → Option (Memory Consumer)
stop_from zero head node m = none
stop_from (suc fuel) head node m =
    let m₁ = unlink node m in
    let rest = stop_from fuel head (m₁.next node) m₁ in
    if node == head
    then some m
    else if not (m.live node)
    then none
    else if not (m₁.live node)
    then none
    else rest

-- ERRNO_INVALID_PARAMETER is 1, and `none` for an access to a node that is freed.
unfoldable pub pca_dispatcher_stop : ℕ → Option Nodes → Option (ℤ × Option Nodes)
unfolding stop_from pca_flush_data_free_list
pca_dispatcher_stop fuel none = some (pos 1, none)
pca_dispatcher_stop fuel (some d) = do
  m ← stop_from fuel d.consumer_list (d.consumers.next d.consumer_list) d.consumers
  d₁ ← pca_flush_data_free_list fuel (record d { consumers = m })
  some (pos 0, some (record d₁ { thread_info = record (d₁.thread_info) { is_running = false } }))

-- `pca_add_consumer_processor` with a processor that has its function: `node` is what `malloc` gives, 0
-- for NULL, and `created` the code of `pthread_create`. The node goes to the end of the list.
unfoldable pub add_consumer_node : ℕ → ℤ → ℤ → Option Nodes → ℤ × Option Nodes
add_consumer_node node created data_type none = (pos 1, none)
add_consumer_node node created data_type (some d) =
    let c : Consumer = record { thread_info = pca_init_thread_info; data_type = data_type } in
    if node == 0 then (pos 1, some d) else (
      created,
      some (record d {
        consumers = (llist_insert d.consumer_list node c llist_backward d.consumers).1;
      }),
    )

-- `pca_dispatcher_run`: `created` is the code of `pthread_create`.
unfoldable pub pca_dispatcher_run : ℤ → Option Nodes → ℤ
pca_dispatcher_run created none = pos 1
pca_dispatcher_run created (some d) = if is_zero created then pos 0 else created
