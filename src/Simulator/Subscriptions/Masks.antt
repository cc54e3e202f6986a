-- ===== src/Simulator/Subscriptions/Masks.antt =====
-- Subscribing and unsubscribing set and clear the bits of a mask for each type of event
-- (src/platform/simulator/csi_camera.c).
use Prim.Native.Nat.{bit_or, bit_or-bitwise}
use csi_hal.Prelude.{
  ℕ, suc, ◌<◌, ◌≤◌, ℤ, pos, eq_int, ◌≡◌, inl, inr, refl, ap, sym, ◌∙◌, false, some, List, [], ◌∷◌,
  ◌++◌, arith, if◌then◌else◌, ◌==◌, length, length-append,
}
use csi_hal.Hal.{Subscription}
use csi_hal.Llist.{Memory, update, llist_backward, llist_insert}
use csi_hal.Llist.Sequence.{find_first, update_first}
use csi_hal.Llist.Refine.{IsList, llist_insert-insert_by}
use csi_hal.Llist.Found.{llist_find-update_first}
use csi_hal.Simulator.Subscriptions.{type_is, set_id, csi_camera_subscribe_event}
use csi_hal.Simulator.Subscriptions.Wanted.{
  wanted, OneEach, wanted-none, find_first-none, find_first-wanted, wanted-update, update-OneEach,
  wanted-append, append-OneEach,
}

-- The list at `me` with a mask for each type.
abbrev pub Masks : Memory Subscription → ℕ → ℕ → (ℤ → ℕ) → Type 0
Masks m me n mask =
    (s : List Subscription) × IsList m me s
    × OneEach s
    × (length s ≤ n)
    × ((t : ℤ) → wanted t s ≡ mask t)

-- One mask of a table of them.
abbrev pub set_mask : ℤ → ℕ → (ℤ → ℕ) → ℤ → ℕ
set_mask type v mask t = if eq_int type t then v else mask t

or-zero : (a : ℕ) → bit_or 0 a ≡ a
or-zero a = λ i. bit_or-bitwise 0 a i

length-update :
    (type : ℤ) (d : Subscription) (s : List Subscription)
    → length (update_first (type_is type) d s) ≡ length s
length-update type d [] = refl
length-update type d (v ∷ s) = ground (arith, length-update type d s)

module _ {m : Memory Subscription} {me n : ℕ} {mask : ℤ → ℕ} (masks : Masks m me n mask) where
  -- The entry of a type with another mask.
  changed :
      (s : List Subscription) (type : ℤ) (id v retp k : ℕ)
      → OneEach s
      → length s ≤ k
      → ((t : ℤ) → wanted t s ≡ mask t)
      → find_first (type_is type) s ≡ some (m.item retp)
      → ((w : Subscription)
          → IsList (record m { item = update m.item retp w }) me (update_first (type_is type) w s))
      → id ≡ v
      → Masks (set_id retp id m) me k (set_mask type v mask)
  changed s type id v retp k each few all first amend e = (
    update_first (type_is type) (record (m.item retp) { id = id }) s,
    amend (record (m.item retp) { id = id }),
    update-OneEach type id (m.item retp) s first each,
    omega (arith, length-update type (record (m.item retp) { id = id }) s),
    λ t. wanted-update type t id (m.item retp) s first ∙ ground (arith, all t),
  )

  -- A subscription, given memory, returns 0 and adds its bits to the mask of its type, and to no
  -- other.
  pub subscribe-set_mask :
      (node fuel : ℕ) (d : Subscription)
      → m.live node ≡ false
      → (node == 0) ≡ false
      → n < fuel
      → (m' : Memory Subscription) × (csi_camera_subscribe_event me node fuel (some d) m
          ≡ some (pos 0, m'))
        × Masks m' me (suc n) (set_mask d.type (bit_or (mask d.type) d.id) mask)
  unfolding csi_camera_subscribe_event
  subscribe-set_mask node fuel d free apart enough =
      let (s, l, each, few, all) = masks in
      elim (llist_find-update_first l (type_is d.type) fuel (omega arith)) [
        | inl (found, nowhere) ↦
            let out = find_first-none d.type s nowhere in
            let (code, list) = llist_insert-insert_by node d l free apart llist_backward refl in
            let before : mask d.type ≡ 0 = sym (all d.type) ∙ wanted-none d.type s out in
            (
              (llist_insert me node d llist_backward m).1,
              ground (arith, found),
              (
                s ++ d ∷ [],
                list,
                append-OneEach s d out each,
                omega (arith, length-append s (d ∷ [])),
                λ t. rw (before, or-zero d.id) (ground (arith, wanted-append t s d out, all t)),
              ),
            )
        | inr (retp, found, node_apart, first, amend) ↦
            let id = bit_or (m.item retp).id d.id in
            let mask_id : id ≡ bit_or (mask d.type) d.id =
              ap (λ z. bit_or z d.id)
                ((find_first-wanted d.type s (m.item retp) first).0 ∙ all d.type) in
            (
              set_id retp id m,
              ground (arith, found, node_apart),
              changed s d.type id (bit_or (mask d.type) d.id) retp (suc n) each (omega arith) all
                  first amend mask_id,
            )
      ]
