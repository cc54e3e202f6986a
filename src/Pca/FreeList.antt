-- ===== src/Pca/FreeList.antt =====
-- The list of data that consumers still hold, with its reference counts
-- (producer_consumer_async.c): `_pca_data_free`, `_pca_add_data_free_item`,
-- `_pca_remove_data_free_item`.
use csi_hal.Prelude.{none, some, List, [], ◌∷◌, ◌++◌, add_u32, sub_u32, ◌==◌, if◌then◌else◌}
use csi_hal.Pca.State.{DataInfo, FreeItem}

-- The callback, if there is one, behind those that were made.
unfoldable pub pca_data_free : DataInfo → List DataInfo → List DataInfo
pca_data_free d consumed = elim d.consumed_callback [
  | none ↦ consumed
  | some _ ↦ consumed ++ (d ∷ [])
]

-- The search for the datum, and the new item at the end where it is not found.
unfoldable pub add_item : DataInfo → List FreeItem → List FreeItem
add_item d [] = record { data_info = d; reference_count = 1 } ∷ []
add_item d (item ∷ items) =
    if item.data_info.data_ptr == d.data_ptr
    then record item { reference_count = add_u32 item.reference_count 1 } ∷ items
    else item ∷ add_item d items

unfoldable pub pca_add_data_free_item : DataInfo → List FreeItem → List FreeItem
unfolding add_item
pca_add_data_free_item d items = elim d.consumed_callback [
  | none ↦ items
  | some _ ↦ add_item d items
]

-- The first item of the datum loses a reference; at 0 its callback is made and it is deleted.
unfoldable pub remove_item :
    DataInfo → List FreeItem → List DataInfo → List FreeItem × List DataInfo
unfolding pca_data_free
remove_item d [] consumed = ([], consumed)
remove_item d (item ∷ items) consumed =
    let left = sub_u32 item.reference_count 1 in
    let (rest, consumed') = remove_item d items consumed in
    if item.data_info.data_ptr == d.data_ptr
    then (if left == 0
        then (items, pca_data_free item.data_info consumed)
        else (record item { reference_count = left } ∷ items, consumed))
    else (item ∷ rest, consumed')

unfoldable pub pca_remove_data_free_item :
    DataInfo → List FreeItem → List DataInfo → List FreeItem × List DataInfo
unfolding remove_item
pca_remove_data_free_item d items consumed = elim d.consumed_callback [
  | none ↦ (items, consumed)
  | some _ ↦ remove_item d items consumed
]
