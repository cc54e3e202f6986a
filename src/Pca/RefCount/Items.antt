-- ===== src/Pca/RefCount/Items.antt =====
-- What adding and removing a reference do to the counts (producer_consumer_async.c).
use csi_hal.Prelude.{
  ℕ, ◌+◌, ◌-◌, ◌<◌, ◌≡◌, ◌⊎◌, inl, inr, Bool-cases, Option-cases, true, List, [], ◌∷◌, ◌++◌, arith,
  if◌then◌else◌, ◌==◌, u32, sub_u32, add_u32-eq, sub_u32-eq,
}
use csi_hal.Pca.State.{DataInfo, FreeItem}
use csi_hal.Pca.FreeList.{
  pca_data_free, add_item, remove_item, pca_add_data_free_item, pca_remove_data_free_item,
}
use csi_hal.Pca.RefCount.{refs, counted, has_callback, Good}

refs-add_item :
    (q : ℕ) (d : DataInfo) (items : List FreeItem)
    → refs d.data_ptr items + 1 < u32
    → refs q (add_item d items) ≡ refs q items + (if d.data_ptr == q then 1 else 0)
unfolding refs add_item
refs-add_item q d [] h = ground arith
refs-add_item q d (item ∷ items) h =
    ground (arith, refs-add_item q d items, add_u32-eq item.reference_count 1)

add_item-Good :
    (d : DataInfo) (items : List FreeItem)
    → refs d.data_ptr items + 1 < u32
    → has_callback d ≡ true
    → Good items
    → Good (add_item d items)
unfolding refs add_item Good
add_item-Good d [] h b g = ground arith
add_item-Good d (item ∷ items) h b g = ground (
  arith,
  add_item-Good d items,
  refs-add_item item.data_info.data_ptr d items,
  add_u32-eq item.reference_count 1,
)

pub refs-remove_item :
    (q : ℕ) (d : DataInfo) (items : List FreeItem) (consumed : List DataInfo)
    → Good items
    → refs q (remove_item d items consumed).0 ≡ refs q items - (if d.data_ptr == q then 1 else 0)
unfolding refs remove_item Good
refs-remove_item q d [] consumed g = ground arith
refs-remove_item q d (item ∷ items) consumed g =
    ground (arith, refs-remove_item q d items consumed, sub_u32-eq item.reference_count 1)

remove_item-Good :
    (d : DataInfo) (items : List FreeItem) (consumed : List DataInfo)
    → Good items
    → Good (remove_item d items consumed).0
unfolding remove_item Good
remove_item-Good d [] consumed g = tt
remove_item-Good d (item ∷ items) consumed g = ground (
  arith,
  remove_item-Good d items consumed,
  refs-remove_item item.data_info.data_ptr d items consumed,
  sub_u32-eq item.reference_count 1,
)

pub refs-add :
    (q : ℕ) (d : DataInfo) (items : List FreeItem)
    → refs d.data_ptr items + 1 < u32
    → refs q (pca_add_data_free_item d items) ≡ refs q items + counted q d
unfolding pca_add_data_free_item
refs-add q d items h = ground (arith, refs-add_item q d items)

pub add-Good :
    (d : DataInfo) (items : List FreeItem)
    → refs d.data_ptr items + 1 < u32
    → Good items
    → Good (pca_add_data_free_item d items)
unfolding pca_add_data_free_item
add-Good d items h g = ground (arith, add_item-Good d items h)

pub refs-remove :
    (q : ℕ) (d : DataInfo) (items : List FreeItem) (consumed : List DataInfo)
    → Good items
    → refs q (pca_remove_data_free_item d items consumed).0 ≡ refs q items - counted q d
unfolding pca_remove_data_free_item
refs-remove q d items consumed g = ground (arith, refs-remove_item q d items consumed g)

pub remove-Good :
    (d : DataInfo) (items : List FreeItem) (consumed : List DataInfo)
    → Good items
    → Good (pca_remove_data_free_item d items consumed).0
unfolding pca_remove_data_free_item
remove-Good d items consumed g = ground (arith, remove_item-Good d items consumed g)

-- What removing a reference to a datum that has one does to the calls of callbacks: none, and there
-- is a reference left, or one on the datum's pointer, and no reference is left.
abbrev pub Released : DataInfo → List DataInfo → List FreeItem → List DataInfo → Type 0
Released d consumed items' consumed' =
    ((consumed' ≡ consumed) × (0 < refs d.data_ptr items'))
    ⊎ ((x : DataInfo) × (consumed' ≡ consumed ++ (x ∷ []))
        × (x.data_ptr ≡ d.data_ptr)
        × (refs d.data_ptr items' ≡ 0))

remove_item-Released :
    (d : DataInfo) (items : List FreeItem) (consumed : List DataInfo)
    → Good items
    → 0 < refs d.data_ptr items
    → let (items', consumed') = remove_item d items consumed in Released d consumed items' consumed'
unfolding refs remove_item Good pca_data_free
remove_item-Released d [] consumed g h = absurd (omega arith)
remove_item-Released d (item ∷ items) consumed g h =
    elim (Bool-cases (item.data_info.data_ptr == d.data_ptr)) [
      | inl same ↦ elim (Bool-cases (sub_u32 item.reference_count 1 == 0)) [
        | inl last ↦ elim (Option-cases item.data_info.consumed_callback) [
          | inl no_callback ↦ cc (rw no_callback at g.3)
          | inr (f, e) ↦ inr (item.data_info, rw (same, last, e), ground arith, ground arith)
        ]
        | inr more ↦ inl (rw (same, more), ground arith)
      ]
      | inr other ↦ elim (remove_item-Released d items consumed g.4 (ground arith)) [
        | inl (none_made, more) ↦ inl (rw (other, none_made), ground arith)
        | inr (x, made, ptr, gone) ↦ inr (x, rw (other, made), ptr, ground arith)
      ]
    ]

pub remove-Released :
    (d : DataInfo) (items : List FreeItem) (consumed : List DataInfo)
    → Good items
    → 0 < refs d.data_ptr items
    → has_callback d ≡ true
    → let (items', consumed') = pca_remove_data_free_item d items consumed in
      Released d consumed items' consumed'
unfolding pca_remove_data_free_item
remove-Released d items consumed g h b = elim (Option-cases d.consumed_callback) [
  | inl e ↦ cc (rw e at b)
  | inr (f, e) ↦ rw (e, pca_remove_data_free_item) (remove_item-Released d items consumed g h)
]
