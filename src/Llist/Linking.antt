-- ===== src/Llist/Linking.antt =====
-- The pointers of src/common/llist.c behind the two assignments that link a node in or out.
use csi_hal.Prelude.{ℕ, ◌≡◌, false, arith, if◌then◌else◌, ◌==◌}
use csi_hal.Llist.{Memory, update, new_node, link, unlink}

module _ {B : Type 0} (f : ℕ → B) (k : ℕ) (v : B) where
  update_self : update f k v k ≡ v
  update_self = ground arith

  update_other : (a : ℕ) → (a == k) ≡ false → update f k v a ≡ f a
  update_other a h = rw h

module _ {A : Type 0} (m : Memory A) (node : ℕ) (v : A) (before after : ℕ)
    (apart : (node == before) ≡ false) where
  pub link-next :
      (p : ℕ)
      → (link node (new_node node v before after m)).next p
        ≡ (if p == before then node else if p == node then after else m.next p)
  link-next p = rw (update_self m.prev node before)

  pub link-prev :
      (p : ℕ)
      → (link node (new_node node v before after m)).prev p
        ≡ (if p == after then node else if p == node then before else m.prev p)
  link-prev p = rw (
    update_self m.prev node before,
    update_other (update m.next node after) before node node apart,
    update_self m.next node after,
  )

-- The node before and behind the one that goes point to one another.
module _ {A : Type 0} (m : Memory A) (node : ℕ) (apart : (node == m.prev node) ≡ false) where
  pub unlink-prev :
      (p : ℕ) → (unlink node m).prev p ≡ (if p == m.next node then m.prev node else m.prev p)
  unlink-prev p = rw (update_other m.next (m.prev node) (m.next node) node apart)
