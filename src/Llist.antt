-- ===== src/Llist.antt =====
-- The linked list of src/common/llist.c, with its struct of include/common/llist.h. The nodes stand
-- in a memory with a map for each of their fields; an access to a node that is not there, or a loop
-- that runs out of fuel, is `none`.
pub mod Chain
pub mod Linking
pub mod Unlinking
pub mod Search
pub mod Sequence
pub mod Refine
pub mod Splits
pub mod Found
pub mod Taking
mod Tests
use csi_hal.Prelude.{
  ℕ, zero, suc, ℤ, pos, minus_one, negsuc, is_zero, Bool, true, false, not, Option, none, some,
  List, [], ◌∷◌, if◌then◌else◌, ◌==◌,
}

-- `struct llist_node_st` by its fields, `live` where there is a node. The head of a list is a node
-- whose item is not read.
pub record Memory (A : Type 0) : Type 0 where
  pub live : ℕ → Bool
  pub prev : ℕ → ℕ
  pub next : ℕ → ℕ
  pub item : ℕ → A

-- One place of a map gets a value.
abbrev pub update : {B : Type 0} → (ℕ → B) → ℕ → B → ℕ → B
update f k v a = if a == k then v else f a

-- LLIST_FORWARD and LLIST_BACKWARD
abbrev pub llist_forward : ℕ
llist_forward = 1

abbrev pub llist_backward : ℕ
llist_backward = 2

module _ {A : Type 0} where
  -- `llist_create`: `me` is the address of the head that `malloc` gives, 0 for NULL.
  unfoldable pub llist_create : ℕ → Memory A → Memory A
  llist_create me m = if me == 0 then m else record m {
    live = update m.live me true;
    prev = update m.prev me me;
    next = update m.next me me;
  }

  -- The node with its data and its two pointers, behind `malloc`.
  abbrev pub new_node : ℕ → A → ℕ → ℕ → Memory A → Memory A
  new_node node v before after m = record {
    live = update m.live node true;
    prev = update m.prev node before;
    next = update m.next node after;
    item = update m.item node v;
  }

  -- `newnode->prev->next = newnode` and `newnode->next->prev = newnode`
  abbrev pub link : ℕ → Memory A → Memory A
  link node m =
      let m₁ = record m { next = update m.next (m.prev node) node } in
      record m₁ { prev = update m₁.prev (m₁.next node) node }

  -- `node` is what `malloc` gives, 0 for NULL. On an unknown mode it stays with the pointers that
  -- its memory held, here those of the map.
  unfoldable pub llist_insert : ℕ → ℕ → A → ℕ → Memory A → ℤ × Memory A
  llist_insert me node v mode m =
      if node == 0
      then (minus_one, m)
      else if mode == llist_forward
      then (pos 0, link node (new_node node v me (m.next me) m))
      else if mode == llist_backward
      then (pos 0, link node (new_node node v (m.prev me) me m))
      else (negsuc 2, new_node node v (m.prev node) (m.next node) m)

  -- The loop of `find_` from `cur` on. `matches` is `cmp(cur->data, data) == 0`.
  unfoldable pub find_from : (A → Bool) → ℕ → ℕ → ℕ → Memory A → Option ℕ
  find_from matches zero me cur m = none
  find_from matches (suc fuel) me cur m =
      let rest = find_from matches fuel me (m.next cur) m in
      if cur == me
      then some cur
      else if not (m.live cur)
      then none
      else if matches (m.item cur)
      then some cur
      else rest

  unfoldable pub find_node : (A → Bool) → ℕ → ℕ → Memory A → Option ℕ
  unfolding find_from
  find_node matches fuel me m = find_from matches fuel me (m.next me) m

  -- The address of the node whose data is returned, 0 for NULL.
  unfoldable pub llist_find : (A → Bool) → ℕ → ℕ → Memory A → Option ℕ
  unfolding find_node
  llist_find matches fuel me m = elim (find_node matches fuel me m) [
    | none ↦ none
    | some cur ↦ some (if cur == me then 0 else cur)
  ]

  -- `node->prev->next = node->next; node->next->prev = node->prev; free(node)`
  abbrev pub unlink : ℕ → Memory A → Memory A
  unlink node m =
      let m₁ = record m { next = update m.next (m.prev node) (m.next node) } in
      let m₂ = record m₁ { prev = update m₁.prev (m₁.next node) (m₁.prev node) } in
      record m₂ { live = update m₂.live node false }

  unfoldable pub llist_delete : (A → Bool) → ℕ → ℕ → Memory A → Option (ℤ × Memory A)
  unfolding find_node
  llist_delete matches fuel me m = elim (find_node matches fuel me m) [
    | none ↦ none
    | some node ↦ some (if node == me then (minus_one, m) else (pos 0, unlink node m))
  ]

  -- `rdata` gets the item where there is one.
  unfoldable pub llist_fetch : (A → Bool) → ℕ → ℕ → Memory A → Option (ℤ × Option A × Memory A)
  unfolding find_node
  llist_fetch matches fuel me m = elim (find_node matches fuel me m) [
    | none ↦ none
    | some node ↦
        some
          (if node == me then (minus_one, none, m) else (pos 0, some (m.item node), unlink node m))
  ]

  -- The items on which `op` is called, in order.
  unfoldable pub travel_from : ℕ → ℕ → ℕ → Memory A → Option (List A)
  travel_from zero me cur m = none
  travel_from (suc fuel) me cur m =
      let rest = travel_from fuel me (m.next cur) m in
      if cur == me
      then some []
      else if not (m.live cur)
      then none
      else elim rest [ none ↦ none | some items ↦ some (m.item cur ∷ items) ]

  unfoldable pub llist_travel : ℕ → ℕ → Memory A → Option (List A)
  unfolding travel_from
  llist_travel fuel me m = travel_from fuel me (m.next me) m

  -- The loop of `llist_destroy`: it reads `cur->next` before it frees `cur`.
  unfoldable pub destroy_from : ℕ → ℕ → ℕ → Memory A → Option (Memory A)
  destroy_from zero me cur m = none
  destroy_from (suc fuel) me cur m =
      let rest = destroy_from fuel me (m.next cur) (record m { live = update m.live cur false }) in
      if cur == me then some m else if not (m.live cur) then none else rest

  unfoldable pub llist_destroy : ℕ → ℕ → Memory A → Option (Memory A)
  unfolding destroy_from
  llist_destroy fuel me m = elim (destroy_from fuel me (m.next me) m) [
    | none ↦ none
    | some m' ↦ some (record m' { live = update m'.live me false })
  ]
