-- ===== src/Simulator/Consumer/Delivering.antt =====
-- From a picture of the camera to the client that gets a frame (src/platform/simulator/csi_camera.c).
use csi_hal.Prelude.{
  ℕ, zero, suc, ◌<◌, ◌≤◌, ℤ, pos, minus_one, ◌≡◌, inl, inr, refl, ap, true, false, some, List, [],
  ◌∷◌, arith, length, ltb, get_elem?, get_elem?-set_self, get_elem?-inside, set, if◌then◌else◌,
  ◌==◌,
}
use csi_hal.Hal.{ImgFormat, Subscription}
use csi_hal.Llist.Refine.{IsList}
use csi_hal.Llist.Found.{llist_find-update_first}
use csi_hal.Llist.Sequence.{find_first}
use csi_hal.Simulator.Subscriptions.{type_is}
use csi_hal.Simulator.Events.{insert_event}
use csi_hal.Simulator.Subscriptions.Wanted.{has_type, find_first-none}
use csi_hal.Simulator.Frames.{
  Slot, Channel, Frame, frame_idle, frame_ready, take_ready, describe, get_from,
  csi_camera_get_frame,
}
use csi_hal.Simulator.Consumer.{fill, Globals, consume, pca_consumer_process, counted}
use csi_hal.Simulator.Consumer.Filling.{has_buf, Apart, Filled, fill-Filled}

found-has_type :
    (type : ℤ) (subs : List Subscription) (d : Subscription)
    → find_first (type_is type) subs ≡ some d
    → has_type type subs ≡ true
found-has_type type [] d h = cc
found-has_type type (v ∷ subs) d h = ground (arith, found-has_type type subs d)

-- The picture at the front: the frame that a client gets from a channel whose first place was idle.
module _ {Image : Type 0} where
  first-Filled :
      (picture : Image) (n : ℕ) (s : Slot) (slots slots' : List Slot) (pixels pixels' : ℕ → Image)
      → (s.frame_status == frame_idle) ≡ true
      → Filled picture (suc n) (s ∷ slots) slots' pixels pixels'
      → (rest : List Slot) × (slots' ≡ record s { frame_status = frame_ready } ∷ rest)
        × (pixels' s.frame_buf ≡ picture)
  first-Filled picture n s slots [] pixels pixels' idle f = elim f [ ]
  first-Filled picture n s slots (s' ∷ slots') pixels pixels' idle (here, rest) =
      let (e, shows) = rw idle at here in (slots', ap (λ z. z ∷ slots') e, shows)

take-first :
    (n : ℕ) (s : Slot) (rest : List Slot)
    → (r : List Slot) × (take_ready (suc n) (record s { frame_status = frame_ready } ∷ rest)
        ≡ some (s.frame_buf, r))
unfolding take_ready
take-first n s rest = (record s { frame_status = frame_ready; refcount = 0 } ∷ rest, refl)

-- A client gets the first place where it is ready.
get_frame-first :
    (image_size : Frame → ℕ) (channels : List Channel) (chn j : ℕ) (c : Channel) (frame : Frame)
    (s : Slot) (rest : List Slot)
    → get_elem? channels chn ≡ some c
    → ltb 2 chn ≡ false
    → c.slots ≡ record s { frame_status = frame_ready } ∷ rest
    → c.cfg.frm_cnt ≡ suc j
    → c.cfg.frm_cnt ≤ length c.slots
    → (f : Frame) × (channels' : List Channel) × (csi_camera_get_frame image_size channels
          (pos chn)
          (some frame)
        ≡ some (pos 0, some f, channels'))
      × (f.usr_addr.0 ≡ s.frame_buf)
unfolding csi_camera_get_frame get_from
get_frame-first image_size channels chn j c frame s rest at inside split some_frames fits =
    let (r, taken) = take-first j s rest in
    let taken' : take_ready c.cfg.frm_cnt c.slots ≡ some (s.frame_buf, r) =
      rw (split, some_frames) taken in
    (
      record (describe image_size c.cfg frame) { usr_addr = (s.frame_buf, 0) },
      set channels chn (record c { slots = r }),
      ground (arith, inside, at, taken'),
      refl,
    )

length-Filled :
    {Image : Type 0} (picture : Image) (n : ℕ) (slots slots' : List Slot)
    (pixels pixels' : ℕ → Image)
    → Filled picture n slots slots' pixels pixels'
    → length slots' ≡ length slots
length-Filled picture n [] slots' pixels pixels' f = ap length f
length-Filled picture n (s ∷ slots) [] pixels pixels' f = elim f [ ]
length-Filled picture zero (s ∷ slots) (s' ∷ slots') pixels pixels' (e, kept, rest) =
    ap suc (length-Filled picture zero slots slots' pixels pixels' rest)
length-Filled picture (suc n) (s ∷ slots) (s' ∷ slots') pixels pixels' (here, rest) =
    ap suc (length-Filled picture n slots slots' pixels pixels' rest)

module _ {Image : Type 0} (format_picture : ImgFormat → Image → Image) where
  -- What a run of the consumer on channel `chn` leaves: the picture in each place that was idle.
  abbrev pub Consumed : ℕ → ℕ → Channel → Globals Image → Globals Image → Type 0
  Consumed chn n c g g' =
      (slots : List Slot) × (g'.channels ≡ set g.channels chn (record c { slots = slots }))
      × Filled (format_picture c.cfg.img_fmt (g.pixels g.frame.frame_bufs)) n c.slots slots g.pixels
          g'.pixels
      × (g'.frame.frame_status ≡ frame_ready)
      × (g'.events.frame_csem ≡ suc g.events.frame_csem)

  module _ (chn me events_head node fuel garbage : ℕ) (g : Globals Image) (subs : List Subscription)
      (counts c : Channel) (l : IsList g.subscriptions me subs) (enough : length subs < fuel)
      (count_of : get_elem? g.channels (counted chn) ≡ some counts)
      (channel : get_elem? g.channels chn ≡ some c) (fits : counts.cfg.frm_cnt ≤ length c.slots)
      (apart : Apart c.slots) (source_apart : has_buf g.frame.frame_bufs c.slots ≡ false) where
    -- The consumer of a channel without a subscription returns -1 and changes nothing; else it returns 0,
    -- writes the picture into each idle place among the counted ones and makes it ready, leaves all
    -- others, and posts the semaphore once.
    pub consumer_process-Consumed :
        if has_type (pos (suc chn)) subs
        then ((g' : Globals Image) × (pca_consumer_process format_picture chn me events_head node
                fuel garbage g
              ≡ some (pos 0, g'))
            × Consumed chn counts.cfg.frm_cnt c g g')
        else (pca_consumer_process format_picture chn me events_head node fuel garbage g
            ≡ some (minus_one, g))
    unfolding pca_consumer_process consume insert_event
    consumer_process-Consumed =
        elim (llist_find-update_first l (type_is (pos (suc chn))) fuel enough) [
          | inl (found, nowhere) ↦
              rw (find_first-none (pos (suc chn)) subs nowhere) (ground (arith, found))
          | inr (retp, found, node_apart, first, amend) ↦
              rw (found-has_type (pos (suc chn)) subs (g.subscriptions.item retp) first) (
                consume format_picture chn counts.cfg.frm_cnt events_head node garbage c g,
                ground (arith, found, node_apart, count_of, channel, fits),
                (
                  (fill format_picture c.cfg.img_fmt g.frame.frame_bufs counts.cfg.frm_cnt c.slots
                      g.pixels).0,
                  refl,
                  fill-Filled format_picture c.cfg.img_fmt g.frame.frame_bufs counts.cfg.frm_cnt
                      c.slots g.pixels apart source_apart,
                  refl,
                  refl,
                ),
              )
        ]

    -- Where the channel is subscribed, its first place is idle and counted, and get_frame stays in
    -- the array, the consumer succeeds, and the frame that a client then gets from the channel shows the picture of
    -- the camera, formatted for the channel.
    pub picture-delivered :
        (image_size : Frame → ℕ) (frame : Frame) (k j : ℕ) (s : Slot) (slots : List Slot)
        → has_type (pos (suc chn)) subs ≡ true
        → ltb 2 chn ≡ false
        → c.slots ≡ s ∷ slots
        → (s.frame_status == frame_idle) ≡ true
        → counts.cfg.frm_cnt ≡ suc k
        → c.cfg.frm_cnt ≡ suc j
        → c.cfg.frm_cnt ≤ length c.slots
        → (g' : Globals Image) × (f : Frame) × (channels' : List Channel) × (pca_consumer_process
              format_picture chn me events_head node fuel garbage g
            ≡ some (pos 0, g'))
          × (csi_camera_get_frame image_size g'.channels (pos chn) (some frame)
              ≡ some (pos 0, some f, channels'))
          × (g'.pixels f.usr_addr.0 ≡ format_picture c.cfg.img_fmt (g.pixels g.frame.frame_bufs))
    picture-delivered image_size frame k j s slots subscribed inside split idle counted_some
          some_frames frames_fit =
        let (g', done, (slots', channels, filled, status, posted)) =
          rw subscribed at consumer_process-Consumed in
        let filled' = rw (split, counted_some) at filled in
        let (rest, e, shows) = first-Filled _ k s slots slots' g.pixels g'.pixels idle filled' in
        let same = length-Filled _ counts.cfg.frm_cnt c.slots slots' g.pixels g'.pixels filled in
        let at : get_elem? g'.channels chn ≡ some (record c { slots = slots' }) = rw channels (
          get_elem?-set_self g.channels chn (record c { slots = slots' })
            (get_elem?-inside g.channels chn c channel)) in
        let (f, channels', got, buf) =
          get_frame-first image_size g'.channels chn j (record c { slots = slots' }) frame s rest at
            inside e some_frames (omega (arith, same)) in
        (g', f, channels', done, got, rw buf shows)
