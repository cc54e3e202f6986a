-- ===== src/Llist/Sequence.antt =====
-- What the operations of src/common/llist.c mean for the sequence of items.
use csi_hal.Prelude.{Bool, Option, none, some, List, [], ◌∷◌, ◌++◌, ℕ, ◌==◌, if◌then◌else◌}
use csi_hal.Llist.{llist_forward, llist_backward}

module _ {A : Type 0} where
  abbrev pub find_first : (A → Bool) → List A → Option A
  find_first matches [] = none
  find_first matches (v ∷ s) = if matches v then some v else find_first matches s

  abbrev pub delete_first : (A → Bool) → List A → List A
  delete_first matches [] = []
  delete_first matches (v ∷ s) = if matches v then s else v ∷ delete_first matches s

  abbrev pub update_first : (A → Bool) → A → List A → List A
  update_first matches w [] = []
  update_first matches w (v ∷ s) = if matches v then w ∷ s else v ∷ update_first matches w s

  abbrev pub insert_by : ℕ → A → List A → List A
  insert_by mode v s =
      if mode == llist_forward then v ∷ s else if mode == llist_backward then s ++ (v ∷ []) else s
