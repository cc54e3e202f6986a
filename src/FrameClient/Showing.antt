-- ===== src/FrameClient/Showing.antt =====
-- What the loop over the frames shows of a channel, for any number of turns.
use csi_hal.Prelude.{
  ℕ, zero, suc, ◌≤◌, pos, minus_one, ◌≡◌, refl, ap, ◌∙◌, true, Option, none, some, List, [], ◌∷◌,
  arith, leb, length, drop,
}
use csi_hal.Simulator.Frames.{
  Slot, Frame, Channel, get_from, csi_camera_get_frame, csi_camera_put_frame, take_ready, release,
  release_all, all_fit, describe,
}
use csi_hal.FrameClient.{show_frame, show_frames}
use csi_hal.FrameClient.Ready.{
  ready_bufs, without, Absent, AreDistinct, without_self, ready_bufs-release, all_fit-release_all,
  take_ready-nil, take_ready-cons,
}

-- What a client sees that asks `n` times while these buffers are ready: each once, and then the last
-- one that it saw.
abbrev pub shows : ℕ → List ℕ → ℕ → List ℕ
shows zero bs last = []
shows (suc n) [] last = last ∷ shows n [] last
shows (suc n) (b ∷ bs) last = b ∷ shows n bs b

abbrev pub ready : Channel → List ℕ
ready c = ready_bufs c.cfg.frm_cnt c.slots

abbrev released : ℕ → Channel → Channel
released b c = record c { slots = release b c.cfg.frm_cnt c.slots }

pub fit-inside :
    (c : Channel) (others : List Channel)
    → all_fit (c ∷ others) ≡ true
    → leb c.cfg.frm_cnt (length c.slots) ≡ true
unfolding all_fit
fit-inside c others fit = ground arith

drop-nil : (n : ℕ) → drop {A = ℕ} n [] ≡ []
drop-nil zero = refl
drop-nil (suc n) = refl

pub drop-all : (n : ℕ) (bs : List ℕ) → length bs ≤ n → drop n bs ≡ []
drop-all n [] h = drop-nil n
drop-all zero (b ∷ bs) h = absurd (omega arith)
drop-all (suc n) (b ∷ bs) h = drop-all n bs (omega arith)

pub length-ready_bufs-le : (n : ℕ) (slots : List Slot) → length (ready_bufs n slots) ≤ n
length-ready_bufs-le zero slots = omega arith
length-ready_bufs-le (suc n) [] = omega arith
length-ready_bufs-le (suc n) (s ∷ slots) = ground (arith, length-ready_bufs-le n slots)

fit-slots :
    (c : Channel) (others : List Channel) (slots' : List Slot)
    → length slots' ≡ length c.slots
    → all_fit (c ∷ others) ≡ true
    → all_fit (record c { slots = slots' } ∷ others) ≡ true
unfolding all_fit
fit-slots c others slots' e fit = rw e fit

fit-released :
    (b : ℕ) (c : Channel) (others : List Channel)
    → all_fit (c ∷ others) ≡ true
    → all_fit (released b c ∷ release_all b others) ≡ true
unfolding release_all
fit-released b c others fit = all_fit-release_all b (c ∷ others) ∙ fit

module _ (image_size : Frame → ℕ) where
  -- The frame that a search fills in
  abbrev filled : Channel → Frame → ℕ → Frame
  filled c frame b = record (describe image_size c.cfg frame) { usr_addr = (b, 0) }

  get_from-ready :
      (c : Channel) (others : List Channel) (frame : Frame) (b : ℕ) (slots' : List Slot)
      → all_fit (c ∷ others) ≡ true
      → take_ready c.cfg.frm_cnt c.slots ≡ some (b, slots')
      → get_from image_size c frame ≡ some (pos 0, filled c frame b, record c { slots = slots' })
  unfolding get_from
  get_from-ready c others frame b slots' fit found = rw (fit-inside c others fit, found) refl

  get_from-none :
      (c : Channel) (others : List Channel) (frame : Frame)
      → all_fit (c ∷ others) ≡ true
      → take_ready c.cfg.frm_cnt c.slots ≡ none
      → get_from image_size c frame ≡ some (minus_one, describe image_size c.cfg frame, c)
  unfolding get_from
  get_from-none c others frame fit missed = rw (fit-inside c others fit, missed) refl

  put-released :
      (c : Channel) (others : List Channel) (f : Frame)
      → f.type ≡ 3
      → all_fit (c ∷ others) ≡ true
      → csi_camera_put_frame (c ∷ others) f
        ≡ some (pos 0, released f.usr_addr.0 c ∷ release_all f.usr_addr.0 others)
  unfolding csi_camera_put_frame release_all
  put-released c others f three fit = ground arith

  -- One frame, while one is ready: the first is shown, and is ready no more.
  show_frame-ready :
      (c : Channel) (others : List Channel) (frame : Frame) (b : ℕ) (bs : List ℕ)
      → all_fit (c ∷ others) ≡ true
      → ready c ≡ b ∷ bs
      → Absent b bs
      → (c' : Channel) × (others' : List Channel) × (f : Frame) × (show_frame image_size
            (c ∷ others)
            frame
          ≡ some (c' ∷ others', f))
        × (f.usr_addr.0 ≡ b)
        × (ready c' ≡ bs)
        × (all_fit (c' ∷ others') ≡ true)
  unfolding show_frame csi_camera_get_frame
  show_frame-ready c others frame b bs fit e absent =
      let (slots', found, same, long) = take_ready-cons c.cfg.frm_cnt b bs c.slots e in
      let c₁ : Channel = record c { slots = slots' } in
      let fit₁ : all_fit (c₁ ∷ others) ≡ true = fit-slots c others slots' long fit in
      (
        released b c₁,
        release_all b others,
        filled c frame b,
        rw
            (
              get_from-ready c others frame b slots' fit found,
              put-released c₁ others (filled c frame b) refl fit₁,
            )
            refl,
        refl,
        ready_bufs-release c.cfg.frm_cnt b slots' ∙ ap (without b) same ∙ without_self b bs absent,
        fit-released b c₁ others fit₁,
      )

  -- One frame, while none is ready: the one that was shown last is shown again.
  show_frame-none :
      (c : Channel) (others : List Channel) (frame : Frame)
      → all_fit (c ∷ others) ≡ true
      → ready c ≡ []
      → (c' : Channel) × (others' : List Channel) × (f : Frame) × (show_frame image_size
            (c ∷ others)
            frame
          ≡ some (c' ∷ others', f))
        × (f.usr_addr.0 ≡ frame.usr_addr.0)
        × (ready c' ≡ [])
        × (all_fit (c' ∷ others') ≡ true)
  unfolding show_frame csi_camera_get_frame
  show_frame-none c others frame fit e =
      let b : ℕ = frame.usr_addr.0 in
      let f : Frame = describe image_size c.cfg frame in
      (
        released b c,
        release_all b others,
        f,
        rw
            (
              get_from-none c others frame fit (take_ready-nil c.cfg.frm_cnt c.slots e),
              put-released c others f refl fit,
            )
            refl,
        refl,
        ready_bufs-release c.cfg.frm_cnt b c.slots ∙ ap (without b) e,
        fit-released b c others fit,
      )

  -- The loop for any number of frames
  pub show_frames-shows :
      (n : ℕ) (c : Channel) (others : List Channel) (frame : Frame) (bs : List ℕ)
      → all_fit (c ∷ others) ≡ true
      → ready c ≡ bs
      → AreDistinct bs
      → (c' : Channel) × (others' : List Channel) × (f : Frame) × (show_frames image_size n
            (c ∷ others)
            frame
          ≡ some (c' ∷ others', f, shows n bs frame.usr_addr.0))
        × (ready c' ≡ drop n bs)
  unfolding show_frames
  show_frames-shows zero c others frame bs fit e distinct = (c, others, frame, refl, e)
  show_frames-shows (suc n) c others frame [] fit e distinct =
      let (c₁, others₁, f, first, again, left, fit₁) = show_frame-none c others frame fit e in
      let (c', others', f', rest, drained) = show_frames-shows n c₁ others₁ f [] fit₁ left tt in
      (
        c',
        others',
        f',
        rw (first, rest)
            (ap
              (λ (a : ℕ).
                let r : Option (List Channel × Frame × List ℕ) =
                  some (c' ∷ others', f', a ∷ shows n [] a) in
                r)
              again),
        drained ∙ drop-nil n,
      )
  show_frames-shows (suc n) c others frame (b ∷ bs) fit e (absent, distinct) =
      let (c₁, others₁, f, first, shown, left, fit₁) =
        show_frame-ready c others frame b bs fit e absent in
      let (c', others', f', rest, drained) =
        show_frames-shows n c₁ others₁ f bs fit₁ left distinct in
      (
        c',
        others',
        f',
        rw (first, rest)
            (ap
              (λ (a : ℕ).
                let r : Option (List Channel × Frame × List ℕ) =
                  some (c' ∷ others', f', a ∷ shows n bs a) in
                r)
              shown),
        drained,
      )
