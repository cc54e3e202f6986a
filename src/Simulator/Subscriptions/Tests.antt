-- ===== src/Simulator/Subscriptions/Tests.antt =====
-- A list of subscriptions of the simulated camera, and the theorems applied to it.
use Prim.Native.Nat.{bit_or}
use csi_hal.Prelude.{pos, ◌≡◌, refl, false, some, [], arith}
use csi_hal.Hal.{Subscription}
use csi_hal.Llist.{Memory, llist_create}
use csi_hal.Llist.Refine.{create-IsList}
use csi_hal.Simulator.Subscriptions.{csi_camera_subscribe_event}
use csi_hal.Simulator.Subscriptions.Masks.{Masks, set_mask, subscribe-set_mask}

abbrev blank : Memory Subscription
blank = record {
  live = λ p. false;
  prev = λ p. 0;
  next = λ p. 0;
  item = λ p. record { type = pos 0; id = 0 };
}

abbrev with_head : Memory Subscription
with_head = llist_create 10 blank

no_mask-Masks : Masks with_head 10 0 (λ t. 0)
no_mask-Masks = ([], create-IsList 10 blank refl, tt, omega arith, λ t. refl)

abbrev channel0 : Subscription
channel0 = record { type = pos 1; id = 1 }

subscribe-set_mask_example :
    (m' : Memory Subscription) × (csi_camera_subscribe_event 10 20 3 (some channel0) with_head
      ≡ some (pos 0, m'))
    × Masks m' 10 1 (set_mask (pos 1) (bit_or 0 1) (λ t. 0))
unfolding llist_create
subscribe-set_mask_example = subscribe-set_mask no_mask-Masks 20 3 channel0 refl refl (omega arith)

subscribed :
    (m' : Memory Subscription) × (csi_camera_subscribe_event 10 20 3 (some channel0) with_head
      ≡ some (pos 0, m'))
    × Masks m' 10 1 (set_mask (pos 1) (bit_or 0 1) (λ t. 0))
unfolding llist_create
subscribed = subscribe-set_mask no_mask-Masks 20 3 channel0 refl refl (omega arith)

-- The memory behind one subscription.
abbrev with_one : Memory Subscription
with_one = subscribed.0
