-- ===== src/Pca/RefCount/Feeding.antt =====
-- A pass of `pca_feed_consumers` (producer_consumer_async.c) keeps the counts.
use csi_hal.Prelude.{ℕ, suc, ◌+◌, ◌<◌, ◌≤◌, ◌≡◌, refl, ap, false, List, [], ◌∷◌, arith, length, u32}
use csi_hal.Pca.State.{DataInfo, Consumer, FreeItem, Dispatcher}
use csi_hal.Pca.FreeList.{pca_remove_data_free_item}
use csi_hal.Pca.Feed.{Loop, feed_consumer, feed_loop, wake_consumer, wake_loop, pca_feed_consumers}
use csi_hal.Pca.RefCount.{refs, held, holders, Good, IsCounted, holders-le}
use csi_hal.Pca.RefCount.Items.{refs-add, add-Good, refs-remove, remove-Good}

-- The counts of the loop, beside `k q` holders that it does not change.
abbrev pub Counts : (ℕ → ℕ) → List FreeItem → List Consumer → Type 0
Counts k items cs = Good items × ((q : ℕ) → refs q items ≡ k q + holders q cs)

module _ (d : DataInfo) (c : Consumer) (l : Loop) (g : Good l.items) where
  kept : List FreeItem
  kept = (pca_remove_data_free_item c.thread_info.data_info l.items l.consumed).0

  feed_consumer-Good : refs d.data_ptr l.items + 1 < u32 → Good (feed_consumer d c l).1.items
  unfolding feed_consumer kept
  feed_consumer-Good h =
      let old = c.thread_info.data_info in
      ground (
        arith,
        add-Good d l.items h g,
        add-Good d kept,
        remove-Good old l.items l.consumed g,
        refs-remove d.data_ptr old l.items l.consumed g,
      )

  refs-feed_consumer :
      (q : ℕ)
      → refs d.data_ptr l.items + 1 < u32
      → held q c ≤ refs q l.items
      → refs q (feed_consumer d c l).1.items + held q c
        ≡ refs q l.items + held q (feed_consumer d c l).0
  unfolding feed_consumer kept
  refs-feed_consumer q h m =
      let old = c.thread_info.data_info in
      ground (
        arith,
        refs-add q d l.items h,
        refs-add q d kept,
        refs-remove q old l.items l.consumed g,
        refs-remove d.data_ptr old l.items l.consumed g,
      )

pub held-le : (q : ℕ) (c : Consumer) → held q c ≤ 1
held-le q c = ground arith

-- One turn keeps the counts of the rest of the loop.
pub feed_consumer-Counts :
    (k : ℕ → ℕ) (d : DataInfo) (c : Consumer) (cs : List Consumer) (l : Loop)
    → ((q : ℕ) → k q + suc (length cs) + 1 < u32)
    → Counts k l.items (c ∷ cs)
    → let (c', l') = feed_consumer d c l in Counts (λ q. k q + held q c') l'.items cs
unfolding holders
feed_consumer-Counts k d c cs l few (g, e) =
    let p = d.data_ptr in
    let small : refs p l.items + 1 < u32 =
      ground (arith, e p, few p, held-le p c, holders-le p cs) in
    (
      feed_consumer-Good d c l g small,
      λ q. omega (arith, refs-feed_consumer d c l g q small (omega (arith, e q)), e q),
    )

feed_loop-Counts :
    (k : ℕ → ℕ) (d : DataInfo) (cs : List Consumer) (l : Loop)
    → ((q : ℕ) → k q + length cs + 1 < u32)
    → Counts k l.items cs
    → let (cs', l') = feed_loop d cs l in Counts k l'.items cs'
unfolding feed_loop holders
feed_loop-Counts k d [] l few h = h
feed_loop-Counts k d (c ∷ cs) l few h =
    let (c', l') = feed_consumer d c l in
    let one = feed_consumer-Counts k d c cs l few h in
    let (g, e) =
      feed_loop-Counts (λ q. k q + held q c') d cs l' (λ q. omega (arith, few q, held-le q c'))
        one in
    (g, λ q. omega (arith, e q))

held-wake_consumer : (q : ℕ) (c : Consumer) → held q (wake_consumer c) ≡ held q c
unfolding wake_consumer
held-wake_consumer q c = ground arith

holders-wake_loop : (q : ℕ) (cs : List Consumer) → holders q (wake_loop cs) ≡ holders q cs
unfolding wake_loop holders
holders-wake_loop q [] = refl
holders-wake_loop q (c ∷ cs) = omega (arith, held-wake_consumer q c, holders-wake_loop q cs)

length-feed_loop :
    (d : DataInfo) (cs : List Consumer) (l : Loop) → length (feed_loop d cs l).0 ≡ length cs
unfolding feed_loop
length-feed_loop d [] l = refl
length-feed_loop d (c ∷ cs) l = ap suc (length-feed_loop d cs (feed_consumer d c l).1)

length-wake_loop : (cs : List Consumer) → length (wake_loop cs) ≡ length cs
unfolding wake_loop
length-wake_loop [] = refl
length-wake_loop (c ∷ cs) = ap suc (length-wake_loop cs)

-- A pass over the consumers, whoever is busy, keeps the free list their holdings.
pub feed_consumers-IsCounted :
    (p : Dispatcher) (d : DataInfo) → IsCounted p → IsCounted (pca_feed_consumers p d).1
unfolding pca_feed_consumers
feed_consumers-IsCounted p d v =
    let start : Loop = record {
      items = p.data_free_list;
      consumed = p.consumed;
      data_feed = false;
    } in
    let (cs, l) = feed_loop d p.consumer_list start in
    let (g, e) =
      feed_loop-Counts (λ q. 0) d p.consumer_list start (λ q. omega (arith, v.few))
        (v.good, λ q. omega (arith, v.counts q)) in
    record {
      good = g;
      few = omega (arith, v.few, length-wake_loop cs, length-feed_loop d p.consumer_list start);
      counts = λ q. omega (arith, e q, holders-wake_loop q cs);
    }
