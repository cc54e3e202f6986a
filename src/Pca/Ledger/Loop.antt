-- ===== src/Pca/Ledger/Loop.antt =====
-- The account through the loop of `pca_feed_consumers` (producer_consumer_async.c).
use csi_hal.Prelude.{
  ℕ, ◌+◌, ◌<◌, ◌≡◌, refl, true, false, List, [], ◌∷◌, arith, if◌then◌else◌, length, u32,
}
use csi_hal.Pca.State.{DataInfo, Consumer}
use csi_hal.Pca.FreeList.{pca_remove_data_free_item}
use csi_hal.Pca.Feed.{Loop, feed_consumer, feed_loop}
use csi_hal.Pca.RefCount.{refs, counted, held, holders, Good, holders-le}
use csi_hal.Pca.RefCount.Items.{refs-add, refs-remove}
use csi_hal.Pca.RefCount.Feeding.{Counts, feed_consumer-Counts, held-le}
use csi_hal.Pca.Ledger.{calls, listed_once, remove-kept}

-- The callbacks of a pointer that the loop has made or left to consumers.
abbrev pub settled : ℕ → Loop → ℕ
settled q l = calls q l.consumed + listed_once q l.items

-- 1 where the loop has handed on the datum, if its pointer is the one asked for.
abbrev pub handed_on : ℕ → DataInfo → Loop → ℕ
handed_on q d l = if l.data_feed then counted q d else 0

-- No consumer to come holds the loop's datum, and `k` consumers behind it do, exactly if it was
-- handed on.
abbrev pub Unseen : ℕ → DataInfo → ℕ → List Consumer → Loop → Type 0
Unseen q d k cs l =
    counted q d ≡ 1
    → (holders q cs ≡ 0) × (l.data_feed ≡ false → k ≡ 0) × (l.data_feed ≡ true → 0 < k)

module _ (q : ℕ) (d : DataInfo) (c : Consumer) (l : Loop) (g : Good l.items) where
  feed_consumer-settled :
      refs q l.items + 1 < u32
      → refs d.data_ptr l.items + 1 < u32
      → (counted q d ≡ 1
          → (held q c ≡ 0)
            × (l.data_feed ≡ false → refs q l.items ≡ 0)
            × (l.data_feed ≡ true → 0 < refs q l.items))
      → let l' = (feed_consumer d c l).1 in
        settled q l' + handed_on q d l ≡ settled q l + handed_on q d l'
  unfolding feed_consumer
  feed_consumer-settled few small fresh =
      let old = c.thread_info.data_info in
      let kept = (pca_remove_data_free_item old l.items l.consumed).0 in
      ground (
        arith,
        remove-kept q old l.items l.consumed g,
        refs-remove q old l.items l.consumed g,
        refs-remove d.data_ptr old l.items l.consumed g,
        refs-add q d l.items small,
        refs-add q d kept,
      )

  feed_consumer-Unseen :
      (k : ℕ) (cs : List Consumer)
      → Unseen q d k (c ∷ cs) l
      → let (c', l') = feed_consumer d c l in Unseen q d (k + held q c') cs l'
  unfolding feed_consumer holders
  feed_consumer-Unseen k cs u one =
      let (none_left, down, up) = u one in ground (arith, none_left, down, up)

-- What the count of the pointer is then.
fresh-refs :
    (q : ℕ) (d : DataInfo) (k : ℕ) (c : Consumer) (cs : List Consumer) (l : Loop)
    → refs q l.items ≡ k + holders q (c ∷ cs)
    → Unseen q d k (c ∷ cs) l
    → counted q d ≡ 1
    → (held q c ≡ 0)
      × (l.data_feed ≡ false → refs q l.items ≡ 0)
      × (l.data_feed ≡ true → 0 < refs q l.items)
unfolding holders
fresh-refs q d k c cs l e u one =
    let (none_left, down, up) = u one in
    (
      omega (arith, none_left),
      λ h. omega (arith, none_left, down h, e),
      λ h. omega (arith, none_left, up h, e),
    )

-- The whole loop: what it settles of a pointer is what it hands on.
pub feed_loop-settled :
    (q : ℕ) (k : ℕ → ℕ) (d : DataInfo) (cs : List Consumer) (l : Loop)
    → ((q : ℕ) → k q + length cs + 1 < u32)
    → Counts k l.items cs
    → Unseen q d (k q) cs l
    → let l' = (feed_loop d cs l).1 in
      settled q l' + handed_on q d l ≡ settled q l + handed_on q d l'
unfolding feed_loop
feed_loop-settled q k d [] l few h u = refl
feed_loop-settled q k d (c ∷ cs) l few (g, e) u =
    let (c', l') = feed_consumer d c l in
    let small : (q : ℕ) → refs q l.items + 1 < u32 =
      λ q. omega (arith, e q, few q, holders-le q (c ∷ cs)) in
    let one =
      feed_consumer-settled q d c l g (small q) (small d.data_ptr)
        (fresh-refs q d (k q) c cs l (e q) u) in
    let rest =
      feed_loop-settled q (λ q. k q + held q c') d cs l' (λ q. omega (arith, few q, held-le q c'))
        (feed_consumer-Counts k d c cs l few (g, e)) (feed_consumer-Unseen q d c l g (k q) cs u) in
    omega (arith, one, rest)
