-- ===== src/Pca/Stop/Tests.antt =====
-- A dispatcher with one consumer, and the theorem applied to it.
use csi_hal.Prelude.{pos, ◌≡◌, refl, false, none, some, [], ◌∷◌}
use csi_hal.Llist.{Memory, llist_backward, llist_create, llist_insert}
use csi_hal.Llist.Refine.{IsList, create-IsList, llist_insert-insert_by}
use csi_hal.Pca.State.{Consumer, FreeItem}
use csi_hal.Pca.Threads.{no_data, pca_init_thread_info}
use csi_hal.Pca.Stop.{Nodes, pca_dispatcher_stop}
use csi_hal.Pca.Stop.Freed.{dispatcher_stop-defined}

abbrev consumer : Consumer
consumer = record { thread_info = pca_init_thread_info; data_type = pos 7 }

abbrev consumers : Memory Consumer
consumers = record { live = λ p. false; prev = λ p. 0; next = λ p. 0; item = λ p. consumer }

abbrev items : Memory FreeItem
items = record {
  live = λ p. false;
  prev = λ p. 0;
  next = λ p. 0;
  item = λ p. record { data_info = no_data; reference_count = 0 };
}

abbrev nodes : Nodes
nodes = record {
  thread_info = pca_init_thread_info;
  consumers = (llist_insert 10 20 consumer llist_backward (llist_create 10 consumers)).1;
  consumer_list = 10;
  items = llist_create 11 items;
  data_free_list = 11;
  consumed = [];
}

consumers-IsList : IsList nodes.consumers 10 (consumer ∷ [])
unfolding llist_create
consumers-IsList =
    (llist_insert-insert_by 20 consumer (create-IsList 10 consumers refl) refl refl llist_backward
      refl).1

dispatcher_stop-defined_example : pca_dispatcher_stop 5 (some nodes) ≡ none
dispatcher_stop-defined_example =
    dispatcher_stop-defined 4 nodes (consumer ∷ []) [] consumers-IsList
      (create-IsList 11 items refl)
