-- ===== src/Simulator/Events/Queue.antt =====
-- The order and the supply of the events of the simulated camera (src/platform/simulator/csi_camera.c).
use csi_hal.Prelude.{
  ℕ, zero, suc, ◌+◌, ◌<◌, ◌≤◌, ℤ, pos, minus_one, eq_int, ◌≡◌, ◌⊎◌, inl, inr, refl, sym, ◌∙◌, false,
  List, [], ◌∷◌, arith, length, ◌==◌,
}
use csi_hal.Hal.{Event}
use csi_hal.Llist.{Memory, llist_forward, llist_insert}
use csi_hal.Llist.Refine.{IsList, llist_insert-insert_by}
use csi_hal.Llist.Found.{llist_fetch-delete_first}
use csi_hal.Llist.Taking.{llist_fetch-fuel, llist_fetch-zero}
use csi_hal.Simulator.Events.{
  Events, fault, returns, insert_event, post_event, fetch_event, csi_camera_get_event,
  camera_id_cmp, Delivery, Step, inserts, posts, loses, takes, fetches, starts, Reach, here, next,
}

-- The first event of the list and its code, by `fetch_event`.
fetch-first :
    (me fuel : ℕ) (event first : Event) (q : Events) (s : List Event)
    → IsList q.memory me (first ∷ s)
    → length s + 1 < fuel
    → (m : Memory Event) × (fetch_event me fuel event q
        ≡ returns (pos 0) first (record q { memory = m }))
      × IsList m me s
unfolding fetch_event
fetch-first me fuel event first q s l enough =
    let ((ret, rdata, m), done, found, code, list) =
      llist_fetch-delete_first l (λ e. eq_int (camera_id_cmp e) (pos 0)) fuel (omega arith) in
    let code' : ret ≡ pos 0 = rw found at code in (m, ground (arith, done, found, code'), list)

fetch_event-fuel :
    (me fuel fuel' : ℕ) (event first : Event) (q : Events) (s : List Event)
    → IsList q.memory me (first ∷ s)
    → fetch_event me (suc fuel) event q ≡ fetch_event me (suc fuel') event q
unfolding fetch_event
fetch_event-fuel me fuel fuel' event first q s l = ground (arith, llist_fetch-fuel l fuel fuel')

-- So with any fuel with which it returns.
fetch-any :
    (me fuel : ℕ) (event first event' : Event) (ret : ℤ) (q q' : Events) (s : List Event)
    → IsList q.memory me (first ∷ s)
    → fetch_event me fuel event q ≡ returns ret event' q'
    → (ret ≡ pos 0) × (q'.frame_csem ≡ q.frame_csem) × IsList q'.memory me s
unfolding fetch_event
fetch-any me zero event first event' ret q q' s l done =
    let e = llist_fetch-zero q.memory me in
    let empty : fetch_event me zero event q ≡ fault = ground (arith, e) in
    let clash : fault ≡ returns ret event' q' = sym empty ∙ done in cc
fetch-any me (suc fuel) event first event' ret q q' s l done =
    let (m, e, list) = fetch-first me (suc (length s + 1)) event first q s l (omega arith) in
    let got : returns ret event' q' ≡ returns (pos 0) first (record q { memory = m }) =
      sym done ∙ fetch_event-fuel me fuel (length s + 1) event first q s l ∙ e in
    let code : ret ≡ pos 0 = cc in
    let rest : q' ≡ record q { memory = m } = cc in (code, rw rest refl, rw rest list)

-- On the empty list the code is -1, and the client keeps what it had.
fetch-empty :
    (me fuel : ℕ) (event : Event) (q : Events)
    → IsList q.memory me []
    → 0 < fuel
    → (m : Memory Event) × (fetch_event me fuel event q
        ≡ returns minus_one event (record q { memory = m }))
      × IsList m me []
unfolding fetch_event
fetch-empty me fuel event q l enough =
    let ((ret, rdata, m), done, found, code, list) =
      llist_fetch-delete_first l (λ e. eq_int (camera_id_cmp e) (pos 0)) fuel enough in
    let code' : ret ≡ minus_one = rw found at code in (m, ground (arith, done, found, code'), list)

fetch_any-empty :
    (me fuel : ℕ) (event event' : Event) (ret : ℤ) (q q' : Events)
    → IsList q.memory me []
    → fetch_event me fuel event q ≡ returns ret event' q'
    → (q'.frame_csem ≡ q.frame_csem) × IsList q'.memory me []
unfolding fetch_event
fetch_any-empty me zero event event' ret q q' l done =
    let e = llist_fetch-zero q.memory me in
    let nothing : fetch_event me zero event q ≡ fault = ground (arith, e) in
    let clash : fault ≡ returns ret event' q' = sym nothing ∙ done in cc
fetch_any-empty me (suc fuel) event event' ret q q' l done =
    let (m, e, list) = fetch-empty me (suc fuel) event q l (omega arith) in
    let got : returns ret event' q' ≡ returns minus_one event (record q { memory = m }) =
      sym done ∙ e in
    let rest : q' ≡ record q { memory = m } = cc in (rw rest refl, rw rest list)

-- The newest event comes out first: csi_camera_get_event behind an insertion and its post returns 0 with the
-- event that was inserted, whatever the events before it, and leaves those and their posts.
pub post-get_event :
    (me node fuel : ℕ) (event tmp : Event) (timeout : ℤ) (q : Events) (s : List Event)
    → IsList q.memory me s
    → q.memory.live node ≡ false
    → (node == 0) ≡ false
    → length s + 1 < fuel
    → (m : Memory Event) × (csi_camera_get_event me fuel event timeout
          (post_event (insert_event me node tmp q))
        ≡ returns (pos 0) tmp (record { memory = m; frame_csem = q.frame_csem }))
      × IsList m me s
unfolding csi_camera_get_event insert_event
post-get_event me node fuel event tmp timeout q s l free apart enough =
    let q' = record (insert_event me node tmp q) { frame_csem = q.frame_csem } in
    fetch-first me fuel event tmp q' s
      (llist_insert-insert_by node tmp l free apart llist_forward refl).1 enough

-- The list has an event for each post, each thread about to post and each client about to fetch, but
-- for the insertions that were lost.
abbrev pub IsSupplied : ℕ → Delivery → Type 0
IsSupplied me d =
    (s : List Event) × IsList d.events.memory me s
    × (d.events.frame_csem + d.unposted + d.fetching ≤ length s + d.lost)

Step-IsSupplied : (me : ℕ) {d e : Delivery} → Step me d e → IsSupplied me d → IsSupplied me e
unfolding insert_event
Step-IsSupplied me (inserts d node tmp apart free) (s, l, enough) =
    (tmp ∷ s, (llist_insert-insert_by node tmp l free apart llist_forward refl).1, omega arith)
Step-IsSupplied me (loses d tmp) (s, l, enough) = (s, unfold llist_insert in l, omega arith)
Step-IsSupplied me (posts d n e) (s, l, enough) = (s, l, omega arith)
Step-IsSupplied me (takes d n e) (s, l, enough) = (s, l, omega arith)
Step-IsSupplied me (fetches d n fuel ret event event' q e done) ([], l, enough) =
    let (kept, list) = fetch_any-empty me fuel event event' ret d.events q l done in
    ([], list, omega (arith, kept))
Step-IsSupplied me (fetches d n fuel ret event event' q e done) (first ∷ s, l, enough) =
    let (code, kept, list) = fetch-any me fuel event first event' ret d.events q s l done in
    (s, list, omega (arith, kept))
Step-IsSupplied me (starts d) (s, l, enough) = (s, l, omega arith)

Reach-IsSupplied : (me : ℕ) {d e : Delivery} → Reach me d e → IsSupplied me d → IsSupplied me e
Reach-IsSupplied me here h = h
Reach-IsSupplied me (next r step) h = Step-IsSupplied me step (Reach-IsSupplied me r h)

answered :
    (me : ℕ) (e : Delivery) (n : ℕ) (event : Event)
    → IsSupplied me e
    → e.fetching ≡ suc n
    → (bound : ℕ) × ((fuel : ℕ)
        → bound < fuel
        → (got : Event) × (q : Events) × ((fetch_event me fuel event e.events
              ≡ returns (pos 0) got q)
            ⊎ ((0 < e.lost) × (fetch_event me fuel event e.events ≡ returns minus_one got q))))
answered me e n event ([], l, enough) busy = (
  0,
  λ fuel more.
      let (m, done, list) = fetch-empty me fuel event e.events l more in
      (event, record e.events { memory = m }, inr (omega arith, done)),
)
answered me e n event (first ∷ s, l, enough) busy = (
  length s + 1,
  λ fuel more.
      let (m, done, list) = fetch-first me fuel event first e.events s l more in
      (first, record e.events { memory = m }, inl done),
)

-- Over any interleaving of threads that publish events, with memory for the event or without, of clients
-- and of channels that start: a client that has passed the semaphore is answered, its fetch with enough
-- fuel neither waits nor faults. It gets an event and 0; or -1, and then an insertion was lost for want
-- of memory.
pub reach-fetches :
    (me : ℕ) (d e : Delivery) (n : ℕ) (event : Event)
    → IsSupplied me d
    → Reach me d e
    → e.fetching ≡ suc n
    → (bound : ℕ) × ((fuel : ℕ)
        → bound < fuel
        → (got : Event) × (q : Events) × ((fetch_event me fuel event e.events
              ≡ returns (pos 0) got q)
            ⊎ ((0 < e.lost) × (fetch_event me fuel event e.events ≡ returns minus_one got q))))
reach-fetches me d e n event supplied reach busy =
    answered me e n event (Reach-IsSupplied me reach supplied) busy
