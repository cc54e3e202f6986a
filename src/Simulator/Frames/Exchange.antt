-- ===== src/Simulator/Frames/Exchange.antt =====
-- What a client sees of the frames of the simulated camera (src/platform/simulator/csi_camera.c).
use csi_hal.Prelude.{
  ℕ, zero, suc, ◌+◌, ◌≤◌, pos, ◌≡◌, ◌⊎◌, inl, inr, refl, ap, sym, ◌∙◌, false, Option, none, some,
  List, [], ◌∷◌, arith, if◌then◌else◌, ◌==◌, leb, ltb, length, get_elem?, set, Option-cases,
  Bool-cases,
}
use mathlib.Core.Path.{subst}
use mathlib.Core.Option.{some-injective}
use csi_hal.Simulator.Frames.{
  Slot, Frame, Channel, frame_idle, frame_ready, count_frames, csi_camera_get_frame_count,
  take_ready, get_from, csi_camera_get_frame, release, release_all, csi_camera_put_frame,
}

count_frames-range :
    (n i : ℕ) (slots : List Slot)
    → n ≤ length slots
    → (count_frames n i slots ≡ i + n) ⊎ (count_frames n i slots ≡ i + n + 1)
unfolding count_frames
count_frames-range zero i slots h = inl (omega arith)
count_frames-range (suc n) i [] h = absurd (omega arith)
count_frames-range (suc zero) i (s ∷ slots) h = ground arith
count_frames-range (suc (suc n)) i (s ∷ []) h = absurd (omega arith)
count_frames-range (suc (suc n)) i (s ∷ t ∷ slots) h = ground (
  arith,
  count_frames-range n (i + 2) slots (omega arith),
  count_frames-range (suc n) (i + 1) (t ∷ slots) (omega arith),
)

-- Where `csi_camera_get_frame_count` returns, it returns the number of frames that the channel is
-- configured with, or one more, however many of them are ready.
pub frame_count-range :
    (channels : List Channel) (id r : ℕ) (c : Channel)
    → get_elem? channels id ≡ some c
    → csi_camera_get_frame_count channels id ≡ some r
    → (r ≡ c.cfg.frm_cnt) ⊎ (r ≡ c.cfg.frm_cnt + 1)
unfolding csi_camera_get_frame_count
frame_count-range channels id r c at e = elim (Bool-cases (leb c.cfg.frm_cnt (length c.slots))) [
  | inl inside ↦
      let value : count_frames c.cfg.frm_cnt 0 c.slots ≡ r =
        some-injective _ _ (rw (at, inside, csi_camera_get_frame_count) at e) in
      ground (arith, count_frames-range c.cfg.frm_cnt 0 c.slots (ground arith))
  | inr outside ↦ cc (rw (at, outside, csi_camera_get_frame_count) at e)
]

-- A search that does not find the buffer.
abbrev Misses : ℕ → Option (ℕ × List Slot) → Type 0
Misses buf none = Unit {0}
Misses buf (some (b, slots)) = (buf == b) ≡ false

Misses-behind :
    (buf : ℕ) (s : Slot) (o : Option (ℕ × List Slot))
    → Misses buf o
    → Misses buf (elim o [ none ↦ none | some (b, slots) ↦ some (b, s ∷ slots) ])
Misses-behind buf s none m = tt
Misses-behind buf s (some (b, slots)) m = m

take_ready-release :
    (n buf : ℕ) (slots : List Slot) → Misses buf (take_ready n (release buf n slots))
unfolding take_ready release
take_ready-release zero buf slots = tt
take_ready-release (suc n) buf [] = tt
take_ready-release (suc n) buf (s ∷ slots) =
    let s' : Slot = if buf == s.frame_buf then record s { frame_status = frame_idle } else s in
    let rest =
      Misses-behind buf s' (take_ready n (release buf n slots)) (take_ready-release n buf slots) in
    elim (Bool-cases (buf == s.frame_buf)) [
      | inl same ↦ simp same rest
      | inr other ↦ elim (Bool-cases (s.frame_status == frame_ready)) [
        | inl ready ↦ simp (other, ready) refl
        | inr busy ↦ simp (other, busy) rest
      ]
    ]

module _ (image_size : Frame → ℕ) where
  -- A frame that comes from a channel comes from the search.
  get_from-Misses :
      (buf : ℕ) (c c' : Channel) (frame f : Frame)
      → Misses buf (take_ready c.cfg.frm_cnt c.slots)
      → get_from image_size c frame ≡ some (pos 0, f, c')
      → (buf == f.usr_addr.0) ≡ false
  unfolding get_from
  get_from-Misses buf c c' frame f m e = elim (Option-cases (take_ready c.cfg.frm_cnt c.slots)) [
    | inl out ↦ ground arith
    | inr ((b, slots), found) ↦ ground (arith, rw found at m)
  ]

  get_frame-from :
      (channels channels' : List Channel) (id : ℕ) (frame f : Frame)
      → csi_camera_get_frame image_size channels (pos id) (some frame)
        ≡ some (pos 0, some f, channels')
      → (c : Channel) × (c' : Channel) × (get_elem? channels id ≡ some c)
        × (get_from image_size c frame ≡ some (pos 0, f, c'))
        × (channels' ≡ set channels id c')
  unfolding csi_camera_get_frame
  get_frame-from channels channels' id frame f e = elim (Bool-cases (ltb 2 id)) [
    | inl out ↦ cc (rw (out, csi_camera_get_frame) at e)
    | inr inside ↦ elim (Option-cases (get_elem? channels id)) [
      | inl none_there ↦ cc (rw (inside, none_there, csi_camera_get_frame) at e)
      | inr (c, at) ↦ elim (Option-cases (get_from image_size c frame)) [
        | inl stuck ↦ cc (rw (inside, at, stuck, csi_camera_get_frame) at e)
        | inr ((ret, g, c'), got) ↦
            let same = some-injective _ _ (rw (inside, at, got, csi_camera_get_frame) at e) in
            (c, c', at, cc, cc)
      ]
    ]
  ]

get_elem?-release_all :
    (buf id : ℕ) (channels : List Channel) (c : Channel)
    → get_elem? (release_all buf channels) id ≡ some c
    → Misses buf (take_ready c.cfg.frm_cnt c.slots)
unfolding release_all
get_elem?-release_all buf id [] c e = cc
get_elem?-release_all buf zero (b ∷ channels) c e =
    subst (λ c. Misses buf (take_ready c.cfg.frm_cnt c.slots)) (some-injective _ _ e)
      (take_ready-release b.cfg.frm_cnt buf b.slots)
get_elem?-release_all buf (suc id) (b ∷ channels) c e = get_elem?-release_all buf id channels c e

put_frame-released :
    (channels channels' : List Channel) (frame : Frame)
    → csi_camera_put_frame channels frame ≡ some (pos 0, channels')
    → channels' ≡ release_all frame.usr_addr.0 channels
unfolding csi_camera_put_frame
put_frame-released channels channels' frame e = ground arith

-- Once a frame was put back with success, the frame that a client gets next, from whatever channel,
-- has another buffer.
pub put-get_other :
    (image_size : Frame → ℕ) (channels channels' channels'' : List Channel) (id : ℕ)
    (frame asked f : Frame)
    → csi_camera_put_frame channels frame ≡ some (pos 0, channels')
    → csi_camera_get_frame image_size channels' (pos id) (some asked)
      ≡ some (pos 0, some f, channels'')
    → (frame.usr_addr.0 == f.usr_addr.0) ≡ false
put-get_other image_size channels channels' channels'' id frame asked f put got =
    let buf = frame.usr_addr.0 in
    let (c, c', at, from, _) = get_frame-from image_size channels' channels'' id asked f got in
    let misses =
      get_elem?-release_all buf id channels c
        (ap (λ l. get_elem? l id) (sym (put_frame-released channels channels' frame put)) ∙ at) in
    get_from-Misses image_size buf c c' asked f misses from
