-- ===== src/Display/Starving.antt =====
-- BGR frames that the display does not take use up its credits.
use csi_hal.Prelude.{
  ◌≤◌, ◌<◌, ℤ, true, false, Option, some, ◌≡◌, ◌≢◌, ◌⊎◌, inl, inr, List, [], ◌∷◌, ◌++◌, arith,
  length, ◌>>=◌, ltb, Bool-cases,
}
use csi_hal.Hal.{pix_bgr}
use csi_hal.Display.State.{Context, Frame, Packet}
use csi_hal.Display.{display_camera_frame, fits, spend}
use csi_hal.Display.Window.{All}

-- Calls for these frames in order, where the peer gives nothing back and all sends succeed
unfoldable pub display_all : ℤ → List Frame → Context → Option (Context × List Packet)
unfolding display_camera_frame
display_all exit_code [] c = some (c, [])
display_all exit_code (f ∷ frames) c = do
  (left, packets) ← display_camera_frame exit_code [] true (some c) (some f)
  c₁ ← left
  (c₂, others) ← display_all exit_code frames c₁
  some (c₂, packets ++ others)

abbrev pub IsMisfit : Frame → Type 0
IsMisfit f = (f.pix_format ≡ pix_bgr) × ((f.width ≢ 304) ⊎ (f.height ≢ 176))

-- A context whose link is up
abbrev pub IsUp : Context → Type 0
IsUp c = (c.exitplink ≡ false) × (c.connected ≡ true)

misfit-fits : (f : Frame) → IsMisfit f → fits f ≡ false
unfolding fits
misfit-fits f (e, inl w) = ground arith
misfit-fits f (e, inr h) = ground arith

-- Without credit nothing is sent.
empty_display :
    (e : ℤ) (c : Context) (f : Frame)
    → IsUp c
    → c.available_bufs ≡ 0
    → display_camera_frame e [] true (some c) (some f) ≡ some (some c, [])
unfolding display_camera_frame
empty_display e c f (up, linked) none_left = ground arith

misfit_display :
    (e : ℤ) (c : Context) (f : Frame)
    → IsUp c
    → IsMisfit f
    → 0 < c.available_bufs
    → display_camera_frame e [] true (some c) (some f) ≡ some (some (spend true c), [])
unfolding display_camera_frame
misfit_display e c f (up, linked) m more = ground (arith, misfit-fits f m)

-- BGR frames of another size than 304 x 176 are not sent, but each costs a credit: behind as many of
-- them as there are credits, nothing is sent of any frame until the peer gives something back.
pub misfits-starve :
    (e : ℤ) (misfits : List Frame) (f : Frame) (c : Context)
    → IsUp c
    → All IsMisfit misfits
    → c.available_bufs ≤ length misfits
    → (c' : Context) × (c'.available_bufs ≡ 0)
      × (display_all e (misfits ++ (f ∷ [])) c ≡ some (c', []))
unfolding display_all
misfits-starve e [] f c up m few =
    let nothing = empty_display e c f up (omega arith) in (c, omega arith, rw nothing)
misfits-starve e (g ∷ misfits) f c up (m, ms) few = elim (Bool-cases (ltb 0 c.available_bufs)) [
  | inl more ↦
      let spent = misfit_display e c g up m (ground arith) in
      let (c', none_left, run) =
        misfits-starve e misfits f (spend true c) (ground arith, up.1) ms (omega arith) in
      (c', none_left, rw (spent, run))
  | inr empty ↦
      let nothing = empty_display e c g up (ground arith) in
      let (c', none_left, run) = misfits-starve e misfits f c up ms (ground arith) in
      (c', none_left, rw (nothing, run))
]
