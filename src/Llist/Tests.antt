-- ===== src/Llist/Tests.antt =====
-- A list of two items in the memory of src/common/llist.c, and the theorems applied to it.
use csi_hal.Prelude.{
  ℕ, ℤ, pos, minus_one, ◌≡◌, refl, false, Option, none, some, [], ◌∷◌, arith, ◌==◌,
}
use csi_hal.Llist.{Memory, llist_forward, llist_backward, llist_create, llist_insert, llist_fetch}
use csi_hal.Llist.Refine.{IsList, create-IsList, llist_insert-insert_by}
use csi_hal.Llist.Found.{llist_fetch-delete_first}

abbrev blank : Memory ℕ
blank = record { live = λ p. false; prev = λ p. 0; next = λ p. 0; item = λ p. 0 }

-- Head 10, then nodes 20 and 30.
abbrev with_head : Memory ℕ
with_head = llist_create 10 blank

abbrev with_one : Memory ℕ
with_one = (llist_insert 10 20 5 llist_backward with_head).1

abbrev with_two : Memory ℕ
with_two = (llist_insert 10 30 7 llist_backward with_one).1

with_one-IsList : IsList with_one 10 (5 ∷ [])
unfolding llist_create
with_one-IsList =
    (llist_insert-insert_by 20 5 (create-IsList 10 blank refl) refl refl llist_backward refl).1

with_two-IsList : IsList with_two 10 (5 ∷ 7 ∷ [])
unfolding llist_create llist_insert
with_two-IsList = (llist_insert-insert_by 30 7 with_one-IsList refl refl llist_backward refl).1

llist_insert-insert_by_example :
    ((llist_insert 10 40 9 llist_forward with_two).0 ≡ pos 0)
    × IsList (llist_insert 10 40 9 llist_forward with_two).1 10 (9 ∷ 5 ∷ 7 ∷ [])
unfolding llist_create llist_insert
llist_insert-insert_by_example =
    llist_insert-insert_by 40 9 with_two-IsList refl refl llist_forward refl

llist_fetch-delete_first_example :
    (r : ℤ × Option ℕ × Memory ℕ) × (llist_fetch (λ v. v == 5) 3 10 with_two ≡ some r)
    × (r.1 ≡ some 5)
    × (r.0 ≡ elim r.1 [ none ↦ minus_one | some v ↦ pos 0 ])
    × IsList r.2 10 (7 ∷ [])
llist_fetch-delete_first_example =
    llist_fetch-delete_first with_two-IsList (λ v. v == 5) 3 (omega arith)
