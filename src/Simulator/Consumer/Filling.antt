-- ===== src/Simulator/Consumer/Filling.antt =====
-- What the consumer of a channel leaves in its buffers (src/platform/simulator/csi_camera.c).
use csi_hal.Prelude.{
  ℕ, zero, suc, ◌≡◌, inl, inr, refl, ◌∙◌, Bool, true, false, ◌||◌, List, [], ◌∷◌, arith,
  if◌then◌else◌, ◌==◌, Bool-cases,
}
use csi_hal.Hal.{ImgFormat}
use csi_hal.Llist.{update}
use csi_hal.Simulator.Frames.{Slot, frame_idle, frame_ready}
use csi_hal.Simulator.Consumer.{fill}

-- A buffer of a place of the channel
abbrev pub has_buf : ℕ → List Slot → Bool
has_buf a [] = false
has_buf a (s ∷ slots) = (a == s.frame_buf) || has_buf a slots

-- No two places share a buffer.
abbrev pub Apart : List Slot → Type 0
Apart [] = Unit {0}
Apart (s ∷ slots) = (has_buf s.frame_buf slots ≡ false) × Apart slots

buf-apart :
    (slots : List Slot) (a b : ℕ)
    → has_buf a slots ≡ false
    → has_buf b slots ≡ true
    → (b == a) ≡ false
buf-apart slots a b out h = elim (Bool-cases (b == a)) [
  | inl same ↦ let e : b ≡ a = ground arith in let h' = rw e at h in cc
  | inr apart ↦ apart
]

module _ {Image : Type 0} where
  -- An idle place among the first `n` is ready and has the picture; all else is as it was.
  abbrev pub Filled : Image → ℕ → List Slot → List Slot → (ℕ → Image) → (ℕ → Image) → Type 0
  Filled picture n [] slots' pixels pixels' = slots' ≡ []
  Filled picture n (s ∷ slots) [] pixels pixels' = ⊥
  Filled picture zero (s ∷ slots) (s' ∷ slots') pixels pixels' =
      (s' ≡ s)
      × (pixels' s.frame_buf ≡ pixels s.frame_buf)
      × Filled picture zero slots slots' pixels pixels'
  Filled picture (suc n) (s ∷ slots) (s' ∷ slots') pixels pixels' =
      (if s.frame_status == frame_idle
        then (s' ≡ record s { frame_status = frame_ready }) × (pixels' s.frame_buf ≡ picture)
        else (s' ≡ s) × (pixels' s.frame_buf ≡ pixels s.frame_buf))
      × Filled picture n slots slots' pixels pixels'

module _ {Image : Type 0} (format_picture : ImgFormat → Image → Image) (img_fmt : ImgFormat)
    (source : ℕ) where
  fill-elsewhere :
      (n : ℕ) (slots : List Slot) (pixels : ℕ → Image) (a : ℕ)
      → has_buf a slots ≡ false
      → (fill format_picture img_fmt source n slots pixels).1 a ≡ pixels a
  unfolding fill
  fill-elsewhere zero slots pixels a out = refl
  fill-elsewhere (suc n) [] pixels a out = refl
  fill-elsewhere (suc n) (s ∷ slots) pixels a out =
      let pixels₁ = update pixels s.frame_buf (format_picture img_fmt (pixels source)) in
      ground (arith, fill-elsewhere n slots pixels₁ a, fill-elsewhere n slots pixels a)

  Filled-none :
      (picture : Image) (slots : List Slot) (pixels : ℕ → Image)
      → Filled picture 0 slots slots pixels pixels
  Filled-none picture [] pixels = refl
  Filled-none picture (s ∷ slots) pixels = (refl, refl, Filled-none picture slots pixels)

  -- A place that is not among these may have another picture before.
  Filled-base :
      (picture : Image) (n : ℕ) (slots slots' : List Slot) (pixels pixels₁ pixels' : ℕ → Image)
      → ((a : ℕ) → has_buf a slots ≡ true → pixels₁ a ≡ pixels a)
      → Filled picture n slots slots' pixels₁ pixels'
      → Filled picture n slots slots' pixels pixels'
  Filled-base picture n [] slots' pixels pixels₁ pixels' same f = f
  Filled-base picture zero (s ∷ slots) [] pixels pixels₁ pixels' same f = elim f [ ]
  Filled-base picture (suc n) (s ∷ slots) [] pixels pixels₁ pixels' same f = elim f [ ]
  Filled-base picture zero (s ∷ slots) (s' ∷ slots') pixels pixels₁ pixels' same (e, kept, rest) = (
    e,
    kept ∙ same s.frame_buf (ground arith),
    Filled-base picture zero slots slots' pixels pixels₁ pixels' (λ a h. same a (ground arith))
        rest,
  )
  Filled-base picture (suc n) (s ∷ slots) (s' ∷ slots') pixels pixels₁ pixels' same (here, rest) = (
    elim (Bool-cases (s.frame_status == frame_idle)) [
      | inl idle ↦ rw idle (rw idle at here)
      | inr busy ↦
          let (e, kept) = rw busy at here in rw busy (e, kept ∙ same s.frame_buf (ground arith))
    ],
    Filled-base picture n slots slots' pixels pixels₁ pixels' (λ a h. same a (ground arith)) rest,
  )

  Filled-idle :
      (picture : Image) (n : ℕ) (s : Slot) (slots slots' : List Slot) (pixels pixels' : ℕ → Image)
      → (s.frame_status == frame_idle) ≡ true
      → pixels' s.frame_buf ≡ picture
      → Filled picture n slots slots' pixels pixels'
      → Filled picture
          (suc n)
          (s ∷ slots)
          (record s { frame_status = frame_ready } ∷ slots')
          pixels
          pixels'
  Filled-idle picture n s slots slots' pixels pixels' idle e rest = (rw idle (refl, e), rest)

  Filled-busy :
      (picture : Image) (n : ℕ) (s : Slot) (slots slots' : List Slot) (pixels pixels' : ℕ → Image)
      → (s.frame_status == frame_idle) ≡ false
      → pixels' s.frame_buf ≡ pixels s.frame_buf
      → Filled picture n slots slots' pixels pixels'
      → Filled picture (suc n) (s ∷ slots) (s ∷ slots') pixels pixels'
  Filled-busy picture n s slots slots' pixels pixels' busy e rest = (rw busy (refl, e), rest)

  pub fill-Filled :
      (n : ℕ) (slots : List Slot) (pixels : ℕ → Image)
      → Apart slots
      → has_buf source slots ≡ false
      → Filled
          (format_picture img_fmt (pixels source))
          n
          slots
          (fill format_picture img_fmt source n slots pixels).0
          pixels
          (fill format_picture img_fmt source n slots pixels).1
  unfolding fill
  fill-Filled zero slots pixels apart out =
      Filled-none (format_picture img_fmt (pixels source)) slots pixels
  fill-Filled (suc n) [] pixels apart out = refl
  fill-Filled (suc n) (s ∷ slots) pixels (alone, apart) out =
      let picture = format_picture img_fmt (pixels source) in
      let pixels₁ = update pixels s.frame_buf picture in
      let kept : pixels₁ source ≡ pixels source = ground arith in
      elim (Bool-cases (s.frame_status == frame_idle)) [
        | inl idle ↦
            let rest = rw kept at (fill-Filled n slots pixels₁ apart (ground arith)) in
            rw idle (
              Filled-idle picture n s slots _ pixels _ idle
                (fill-elsewhere n slots pixels₁ s.frame_buf alone ∙ ground arith)
                (Filled-base picture n slots _ pixels pixels₁ _
                  (λ a h. ground (arith, buf-apart slots s.frame_buf a alone h)) rest))
        | inr busy ↦ rw busy (
            Filled-busy picture n s slots _ pixels _ busy
              (fill-elsewhere n slots pixels s.frame_buf alone)
              (fill-Filled n slots pixels apart (ground arith)))
      ]
