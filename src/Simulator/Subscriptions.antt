-- ===== src/Simulator/Subscriptions.antt =====
-- The subscriptions of the simulated camera (src/platform/simulator/csi_camera.c), in the linked list
-- `g_camera_subscribe_event` at the address `me`. `fuel` bounds the walks over the list.
pub mod Wanted
pub mod Masks
mod Tests
use Prim.Native.Nat.{bit_and, bit_or}
use csi_hal.Prelude.{
  ℕ, ◌-◌, ◌^◌, ℤ, pos, minus_one, eq_int, Bool, Option, none, some, if◌then◌else◌, ◌==◌,
}
use csi_hal.Hal.{Subscription}
use csi_hal.Llist.{Memory, update, llist_backward, llist_insert, llist_find, llist_delete}

-- `type_cmp(data, &type) == 0`
abbrev pub type_is : ℤ → Subscription → Bool
type_is type d = eq_int d.type type

-- `a & ~b` on `unsigned int`
abbrev pub and_not : ℕ → ℕ → ℕ
and_not a b = bit_and a (2 ^ 32 - 1 - b)

-- `retp->id = id`
abbrev pub set_id : ℕ → ℕ → Memory Subscription → Memory Subscription
set_id retp id m = record m { item = update m.item retp (record (m.item retp) { id = id }) }

-- `node` is what `malloc` gives in `llist_insert`, whose code is ignored.
unfoldable pub csi_camera_subscribe_event :
    ℕ → ℕ → ℕ → Option Subscription → Memory Subscription → Option (ℤ × Memory Subscription)
csi_camera_subscribe_event me node fuel none m = some (minus_one, m)
csi_camera_subscribe_event me node fuel (some subscribe) m =
    elim (llist_find (type_is subscribe.type) fuel me m) [
      | none ↦ none
      | some retp ↦ some (
          if retp == 0
          then (pos 0, (llist_insert me node subscribe llist_backward m).1)
          else (pos 0, set_id retp (bit_or (m.item retp).id subscribe.id) m))
    ]

unfoldable pub csi_camera_unsubscribe_event :
    ℕ → ℕ → Option Subscription → Memory Subscription → Option (ℤ × Memory Subscription)
csi_camera_unsubscribe_event me fuel none m = some (minus_one, m)
csi_camera_unsubscribe_event me fuel (some subscribe) m =
    elim (llist_find (type_is subscribe.type) fuel me m) [
      | none ↦ none
      | some retp ↦
          let left : ℕ = and_not (m.item retp).id subscribe.id in
          let m₁ = set_id retp left m in
          let deleted : Option (ℤ × Memory Subscription) =
            elim (llist_delete (type_is subscribe.type) fuel me m₁) [
              | none ↦ none
              | some (ret, m₂) ↦ some (pos 0, m₂)
            ] in
          if retp == 0 then some (minus_one, m) else if left == 0 then deleted else some (pos 0, m₁)
    ]
