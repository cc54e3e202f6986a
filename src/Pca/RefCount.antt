-- ===== src/Pca/RefCount.antt =====
-- The reference counts of producer_consumer_async.c count the consumers that hold a datum, and its
-- callback is made when the last of them lets it go.
pub mod Items
pub mod Feeding
use csi_hal.Prelude.{
  ℕ, zero, suc, ◌+◌, ◌-◌, ◌<◌, ◌≤◌, ℤ, ◌≡◌, refl, Bool, true, false, not, Option, none, some, List,
  [], ◌∷◌, arith, if◌then◌else◌, ◌==◌, length, u32,
}
use csi_hal.Pca.State.{DataInfo, Consumer, FreeItem, Dispatcher}

-- The count of a pointer's first item, 0 where there is none.
unfoldable pub refs : ℕ → List FreeItem → ℕ
refs q [] = 0
refs q (item ∷ items) = if item.data_info.data_ptr == q then item.reference_count else refs q items

-- Whether the pointer is that of a datum with a callback.
abbrev pub counted : ℕ → DataInfo → ℕ
counted q d = elim d.consumed_callback [ none ↦ 0 | some _ ↦ if d.data_ptr == q then 1 else 0 ]

-- 1 where the consumer has a new datum of that pointer, with a callback.
abbrev pub held : ℕ → Consumer → ℕ
held q c = if c.thread_info.has_new_data then counted q c.thread_info.data_info else 0

unfoldable pub holders : ℕ → List Consumer → ℕ
holders q [] = 0
holders q (c ∷ cs) = held q c + holders q cs

abbrev pub has_callback : DataInfo → Bool
has_callback d = elim d.consumed_callback [ none ↦ false | some _ ↦ true ]

-- Each pointer has one item, of a datum with a callback, and a count from 1 up that has not
-- overflowed.
unfoldable pub Good : List FreeItem → Type 0
Good [] = Unit {0}
Good (item ∷ items) =
    (0 < item.reference_count)
    × (item.reference_count < u32)
    × (refs item.data_info.data_ptr items ≡ 0)
    × (has_callback item.data_info ≡ true)
    × Good items

-- The free list of a dispatcher is its consumers' holdings.
pub record IsCounted (p : Dispatcher) : Type 0 where
  pub good : Good p.data_free_list
  pub few : length p.consumer_list + 1 < u32
  pub counts : (q : ℕ) → refs q p.data_free_list ≡ holders q p.consumer_list

pub holders-le : (q : ℕ) (cs : List Consumer) → holders q cs ≤ length cs
unfolding holders
holders-le q [] = omega arith
holders-le q (c ∷ cs) = ground (arith, holders-le q cs)
