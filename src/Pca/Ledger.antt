-- ===== src/Pca/Ledger.antt =====
-- The account of every datum in producer_consumer_async.c: where its callback stands.
pub mod Loop
pub mod Conserved
use csi_hal.Prelude.{
  ℕ, ◌+◌, ◌-◌, ◌<◌, ◌≤◌, zero, suc, ◌≡◌, refl, Bool, true, false, Option, none, some, List, [], ◌∷◌,
  ◌++◌, arith, if◌then◌else◌, ◌==◌, u32, add_u32, sub_u32, add_u32-eq, sub_u32-eq, Bool-cases,
  Option-cases, inl, inr,
}
use csi_hal.Pca.State.{DataInfo, ThreadInfo, FreeItem, Dispatcher}
use csi_hal.Pca.FreeList.{
  pca_data_free, add_item, remove_item, pca_add_data_free_item, pca_remove_data_free_item,
}
use csi_hal.Pca.RefCount.{refs, counted, has_callback, Good}
use csi_hal.Pca.RefCount.Items.{refs-remove_item}

-- The callbacks made on a pointer.
unfoldable pub calls : ℕ → List DataInfo → ℕ
calls q [] = 0
calls q (d ∷ ds) = counted q d + calls q ds

-- 1 where consumers hold the pointer: the callback is still to come.
abbrev pub listed_once : ℕ → List FreeItem → ℕ
listed_once q items = if refs q items == 0 then 0 else 1

-- 1 where the dispatcher holds the pointer.
abbrev pub pending : ℕ → ThreadInfo → ℕ
pending q t = if t.has_new_data then counted q t.data_info else 0

-- The callbacks on a pointer: made, to be made by consumers, and to be handed on by the dispatcher.
abbrev pub account : ℕ → Dispatcher → ℕ
account q p = calls q p.consumed + listed_once q p.data_free_list + pending q p.thread_info

calls-append :
    (q : ℕ) (ds : List DataInfo) (d : DataInfo)
    → calls q (ds ++ (d ∷ [])) ≡ calls q ds + counted q d
unfolding calls
calls-append q [] d = omega arith
calls-append q (x ∷ ds) d = omega (arith, calls-append q ds d)

pub calls-data_free :
    (q : ℕ) (d : DataInfo) (ds : List DataInfo)
    → calls q (pca_data_free d ds) ≡ calls q ds + counted q d
unfolding pca_data_free
calls-data_free q d ds = ground (arith, calls-append q ds d)

-- The item of a pointer is its only one, of a datum with a callback.
head-kept :
    (q : ℕ) (item : FreeItem) (items : List FreeItem)
    → Good (item ∷ items)
    → counted q item.data_info + listed_once q items ≡ listed_once q (item ∷ items)
unfolding refs Good
head-kept q item items g = ground arith

tail-kept :
    (q : ℕ) (item : FreeItem) (items items' : List FreeItem) (ds ds' : List DataInfo)
    → Good (item ∷ items)
    → refs q items' ≤ refs q items
    → calls q ds' + listed_once q items' ≡ calls q ds + listed_once q items
    → calls q ds' + listed_once q (item ∷ items') ≡ calls q ds + listed_once q (item ∷ items)
unfolding refs Good
tail-kept q item items items' ds ds' g le e = ground arith

-- A removal keeps the account of every pointer.
remove_item-kept :
    (q : ℕ) (d : DataInfo) (items : List FreeItem) (ds : List DataInfo)
    → Good items
    → let (items', ds') = remove_item d items ds in
      calls q ds' + listed_once q items' ≡ calls q ds + listed_once q items
unfolding refs remove_item Good
remove_item-kept q d [] ds g = refl
remove_item-kept q d (item ∷ items) ds g =
    elim (Bool-cases (item.data_info.data_ptr == d.data_ptr)) [
      | inl same ↦ elim (Bool-cases (sub_u32 item.reference_count 1 == 0)) [
        | inl last ↦
            let made = calls-data_free q item.data_info ds in
            let found : counted q item.data_info + listed_once q items
                ≡ listed_once q (item ∷ items) =
              head-kept q item items g in
            simp (same, last, made) (omega (arith, found))
        | inr more ↦ rw (same, more) (ground (arith, sub_u32-eq item.reference_count 1))
      ]
      | inr other ↦
          let (items', ds') = remove_item d items ds in
          let fewer : refs q items' ≤ refs q items =
            omega (arith, refs-remove_item q d items ds g.4) in
          simp other
            (tail-kept q item items items' ds ds' g fewer (remove_item-kept q d items ds g.4))
    ]

pub remove-kept :
    (q : ℕ) (d : DataInfo) (items : List FreeItem) (ds : List DataInfo)
    → Good items
    → let (items', ds') = pca_remove_data_free_item d items ds in
      calls q ds' + listed_once q items' ≡ calls q ds + listed_once q items
unfolding pca_remove_data_free_item
remove-kept q d items ds g = ground (arith, remove_item-kept q d items ds g)
