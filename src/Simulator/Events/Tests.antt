-- ===== src/Simulator/Events/Tests.antt =====
-- An event of the simulated camera on its way to a client, and the theorems applied to it.
use csi_hal.Prelude.{ℕ, ◌<◌, pos, minus_one, ◌≡◌, ◌⊎◌, refl, false, [], arith}
use csi_hal.Hal.{Event}
use csi_hal.Llist.{Memory, llist_create}
use csi_hal.Llist.Refine.{IsList, create-IsList}
use csi_hal.Simulator.Events.{
  Events, returns, insert_event, post_event, fetch_event, csi_camera_get_event, Delivery, Reach,
  here, next, inserts, posts, takes,
}
use csi_hal.Simulator.Events.Queue.{IsSupplied, post-get_event, reach-fetches}

abbrev no_event : Event
no_event = record { type = pos 0; id = 0 }

abbrev blank : Memory Event
blank = record { live = λ p. false; prev = λ p. 0; next = λ p. 0; item = λ p. no_event }

abbrev with_head : Events
with_head = record { memory = llist_create 10 blank; frame_csem = 0 }

abbrev ready : Event
ready = record { type = pos 1; id = 1 }

post-get_event_example :
    (m : Memory Event) × (csi_camera_get_event 10 3 no_event minus_one
        (post_event (insert_event 10 20 ready with_head))
      ≡ returns (pos 0) ready (record { memory = m; frame_csem = 0 }))
    × IsList m 10 []
unfolding llist_create
post-get_event_example =
    post-get_event 10 20 3 no_event ready minus_one with_head [] (create-IsList 10 blank refl) refl
      refl (omega arith)

abbrev start : Delivery
start = record { events = with_head; unposted = 0; fetching = 0; lost = 0 }

start-IsSupplied : IsSupplied 10 start
start-IsSupplied = ([], create-IsList 10 blank refl, omega arith)

abbrev inserted : Delivery
inserted = record {
  events = insert_event 10 20 ready with_head;
  unposted = 1;
  fetching = 0;
  lost = 0;
}

abbrev posted : Delivery
posted = record {
  events = post_event (insert_event 10 20 ready with_head);
  unposted = 0;
  fetching = 0;
  lost = 0;
}

abbrev taken : Delivery
taken = record { events = insert_event 10 20 ready with_head; unposted = 0; fetching = 1; lost = 0 }

start-taken : Reach 10 start taken
unfolding insert_event llist_create
start-taken =
    next (next (next here (inserts start 20 ready refl refl)) (posts inserted 0 refl))
      (takes posted 0 refl)

reach-fetches_example :
    (bound : ℕ) × ((fuel : ℕ)
      → bound < fuel
      → (got : Event) × (q : Events) × ((fetch_event 10 fuel no_event taken.events
            ≡ returns (pos 0) got q)
          ⊎ ((0 < 0) × (fetch_event 10 fuel no_event taken.events ≡ returns minus_one got q))))
reach-fetches_example = reach-fetches 10 start taken 0 no_event start-IsSupplied start-taken refl
