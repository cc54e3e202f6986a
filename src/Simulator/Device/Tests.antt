-- ===== src/Simulator/Device/Tests.antt =====
-- An open camera with a frame, and the theorem applied to it.
use csi_hal.Prelude.{ℕ, pos, false, some, none, [], ◌∷◌, if◌then◌else◌, ◌==◌, ◌||◌}
use csi_hal.Hal.{ModeCfg, Subscription, Event}
use csi_hal.Llist.{Memory, llist_create}
use csi_hal.Simulator.Channels.{Heap}
use csi_hal.Simulator.Device.{Llist, Device}

abbrev blank : {A : Type 0} → A → Memory A
blank a = record { live = λ p. false; prev = λ p. 0; next = λ p. 0; item = λ p. a }

abbrev no_event : Event
no_event = record { type = pos 0; id = 0 }

abbrev no_sub : Subscription
no_sub = record { type = pos 0; id = 0 }

abbrev no_mode : ModeCfg
no_mode = record { mode_id = pos 0 }

abbrev list_at : {A : Type 0} → ℕ → A → Llist A
list_at me a = record { memory = llist_create me (blank a); head = me }

abbrev heap : Heap
heap a = if (a == 13) || (a == 100) || (a == 50) then some 4 else none

abbrev device : Device
device = record {
  mode_cfg = list_at 10 no_mode;
  subscribe_event = list_at 11 no_sub;
  event = list_at 12 no_event;
  frames = record { frame_bufs = 100; frame_status = 1 } ∷ [];
  dispatcher = 50;
  heap = heap;
}
