-- ===== src/Simulator/Events.antt =====
-- The events of the simulated camera (src/platform/simulator/csi_camera.c): the list
-- `g_camera_event` at the address `me`, and the semaphore `frame_csem` on which a client waits for
-- it. `mutex_event` makes each call on the list one step.
pub mod Queue
mod Tests
use csi_hal.Prelude.{
  ℕ, zero, suc, ℤ, pos, negsuc, minus_one, Bool, true, false, Option, none, some, eq_int, ◌≡◌,
  if◌then◌else◌, ◌==◌,
}
use csi_hal.Hal.{Event}
use csi_hal.Llist.{Memory, llist_forward, llist_insert, llist_fetch}

pub record Events : Type 0 where
  pub memory : Memory Event
  pub frame_csem : ℕ

-- `camera_id_cmp`, which is 0 on all events
abbrev pub camera_id_cmp : Event → ℤ
camera_id_cmp d = pos 0

-- What a call does that may wait: `fault` for an access outside the list.
pub data Outcome : Type 0 where
  waits fault : Outcome
  returns : ℤ → Event → Events → Outcome

-- `insert(g_camera_event, &tmp, LLIST_FORWARD)`, where `malloc` gives `node`. The code is ignored.
unfoldable pub insert_event : ℕ → ℕ → Event → Events → Events
insert_event me node tmp q = record q {
  memory = (llist_insert me node tmp llist_forward q.memory).1;
}

-- `sem_post(&frame_csem)`
abbrev pub post_event : Events → Events
post_event q = record q { frame_csem = suc q.frame_csem }

-- The part of `csi_camera_get_event` under the mutex.
unfoldable pub fetch_event : ℕ → ℕ → Event → Events → Outcome
fetch_event me fuel event q =
    elim (llist_fetch (λ e. eq_int (camera_id_cmp e) (pos 0)) fuel me q.memory) [
      | none ↦ fault
      | some (ret, rdata, m) ↦
          let event' : Event = elim rdata [ none ↦ event | some e ↦ e ] in
          let q' : Events = record q { memory = m } in
          if eq_int ret minus_one then returns minus_one event' q' else returns (pos 0) event' q'
    ]

-- A `timeout` of -1 is without a limit; with one, the wait on a semaphore that stays at 0 runs out.
unfoldable pub csi_camera_get_event : ℕ → ℕ → Event → ℤ → Events → Outcome
unfolding fetch_event
csi_camera_get_event me fuel event timeout q = elim q.frame_csem [
  | zero ↦ if eq_int timeout minus_one then waits else returns minus_one event q
  | suc n ↦ fetch_event me fuel event (record q { frame_csem = n })
]

-- The clients and the consumer threads, step by step: `unposted` threads stand between the insertion
-- and the post, `fetching` clients between the semaphore and the list. `lost` counts the insertions for
-- which `malloc` had no memory; their posts are made all the same.
pub record Delivery : Type 0 where
  pub events : Events
  pub unposted : ℕ
  pub fetching : ℕ
  pub lost : ℕ

pub data Step (me : ℕ) : Delivery → Delivery → Type 0 where
  inserts :
      (d : Delivery) (node : ℕ) (tmp : Event)
      → (node == 0) ≡ false
      → d.events.memory.live node ≡ false
      → Step me d
          (record d { events = insert_event me node tmp d.events; unposted = suc d.unposted })
  loses :
      (d : Delivery) (tmp : Event)
      → Step me d (record d {
        events = insert_event me 0 tmp d.events;
        unposted = suc d.unposted;
        lost = suc d.lost;
      })
  posts :
      (d : Delivery) (n : ℕ)
      → d.unposted ≡ suc n
      → Step me d (record d { events = post_event d.events; unposted = n })
  takes :
      (d : Delivery) (n : ℕ)
      → d.events.frame_csem ≡ suc n
      → Step me d
          (record d { events = record d.events { frame_csem = n }; fetching = suc d.fetching })
  fetches :
      (d : Delivery) (n fuel : ℕ) (ret : ℤ) (event event' : Event) (q : Events)
      → d.fetching ≡ suc n
      → fetch_event me fuel event d.events ≡ returns ret event' q
      → Step me d (record d { events = q; fetching = n })
  -- `sem_init` of a channel that starts
  starts : (d : Delivery) → Step me d (record d { events = record d.events { frame_csem = 0 } })

pub data Reach (me : ℕ) (d : Delivery) : Delivery → Type 0 where
  here : Reach me d d
  next : {e f : Delivery} → Reach me d e → Step me e f → Reach me d f
