-- ===== src/Simulator/Producer/Refill.antt =====
-- What the producer of the simulated camera does to a frame that it has fed
-- (src/platform/simulator/csi_camera.c).
use mathlib.Core.Path.{subst}
use csi_hal.Prelude.{
  ℕ, ◌≡◌, inl, inr, ap, sym, ◌∙◌, some, arith, get_elem?, if◌then◌else◌, ◌==◌, Option-cases,
}
use csi_hal.Llist.{update}
use csi_hal.Simulator.Consumer.{CameraFrame}
use csi_hal.Simulator.Producer.{Producer, first_idle, datum, feed, camera_producer_frame}

module _ {Image : Type 0} (base : ℕ) where
  -- What a turn does that feeds the frame `f` at `i`.
  abbrev pub Feeds : ℕ → CameraFrame → Image → Producer Image → Producer Image → Type 0
  Feeds i f picture st st' =
      (get_elem? st.frames i ≡ some f)
      × (feed (datum base i) st.dispatcher ≡ some st'.dispatcher)
      × ((a : ℕ) → st'.pixels a ≡ (if a == f.frame_bufs then picture else st.pixels a))
      × (st'.frames ≡ st.frames)

  turn-Feeds :
      (i : ℕ) (picture : Image) (st st' : Producer Image)
      → first_idle 0 st.frames ≡ some i
      → camera_producer_frame base picture st ≡ some st'
      → (f : CameraFrame) × Feeds i f picture st st'
  unfolding camera_producer_frame
  turn-Feeds i picture st st' idle e = elim (Option-cases (get_elem? st.frames i)) [
    | inl nothing ↦ let e' = rw (idle, nothing, camera_producer_frame) at e in cc
    | inr (f, at) ↦ elim (Option-cases (feed (datum base i) st.dispatcher)) [
      | inl waits ↦ let e' = rw (idle, at, waits, camera_producer_frame) at e in cc
      | inr (p, fed) ↦
          let after : Producer Image = record st {
            pixels = update st.pixels f.frame_bufs picture;
            dispatcher = p;
          } in
          let same : after ≡ st' = let e' = rw (idle, at, fed, camera_producer_frame) at e in cc in
          (
            f,
            (
              at,
              fed ∙ ap (λ z. some z.dispatcher) same,
              (λ a. ap (λ z. z.pixels a) (sym same)),
              ap (λ z. z.frames) (sym same),
            ),
          )
    ]
  ]

  -- Two turns of the producer with no callback between them feed the same frame: the second writes its
  -- picture over the first one, which the dispatcher or a consumer may still hold.
  pub turn-refills :
      (i : ℕ) (picture picture' : Image) (st st₁ st₂ : Producer Image)
      → first_idle 0 st.frames ≡ some i
      → camera_producer_frame base picture st ≡ some st₁
      → camera_producer_frame base picture' st₁ ≡ some st₂
      → (f : CameraFrame) × Feeds i f picture st st₁
        × Feeds i f picture' st₁ st₂
        × (st₁.pixels f.frame_bufs ≡ picture)
        × (st₂.pixels f.frame_bufs ≡ picture')
  turn-refills i picture picture' st st₁ st₂ idle e e' =
      let (f, (at, fed, shows, frames)) = turn-Feeds i picture st st₁ idle e in
      let (f', (at', fed', shows', frames')) = turn-Feeds i picture' st₁ st₂ (rw frames idle) e' in
      let there : get_elem? st.frames i ≡ some f' = rw frames at at' in
      let same : f' ≡ f = let e = sym there ∙ at in cc in
      (
        f,
        (at, fed, shows, frames),
        subst (λ z. Feeds i z picture' st₁ st₂) same (at', fed', shows', frames'),
        shows f.frame_bufs ∙ ground arith,
        ap (λ z. st₂.pixels z.frame_bufs) (sym same) ∙ shows' f'.frame_bufs ∙ ground arith,
      )
