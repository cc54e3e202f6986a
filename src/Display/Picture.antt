-- ===== src/Display/Picture.antt =====
-- The copy of a BGR frame of 304 x 176 into a buffer: three planes, of which 300 bytes a row count.
use csi_hal.Prelude.{
  ℕ, zero, suc, ◌+◌, ◌*◌, ◌≤◌, ◌<◌, ℤ, Bool, true, false, Option, some, ◌≡◌, refl, ap, ◌∙◌, List,
  [], ◌∷◌, arith, length, get_or, get_elem?, ◌>>=◌, if◌then◌else◌,
}
use csi_hal.Hal.{pix_bgr}
use csi_hal.Display.State.{PictureBuffer, Context, Frame, Packet}
use csi_hal.Display.{
  copy_rows, copy_planes, copy_bgr, fits, display_camera_frame, polled, retrieve, Way, way, present,
  send_bgr, present_bgr, send_copy, put_pixels, bgr_packet, spend,
}
use csi_hal.Display.Rows.{IsCopied, copy_rows-IsCopied}
use csi_hal.Display.Starving.{IsUp}

abbrev pub plane_in : ℕ
plane_in = 53504

abbrev pub plane_out : ℕ
plane_out = 92416

-- Each of the three planes in the buffer shows that of the frame: 176 rows with 304 bytes from one to
-- the next, of which the first 300 are those of the frame.
abbrev pub Shows : List ℕ → List ℕ → Type 0
Shows src dst =
    (p y x : ℕ)
    → p < 3
    → y < 176
    → x < 300
    → get_or dst (p * 92416 + y * 304 + x) 0 ≡ get_or src (p * 53504 + y * 304 + x) 0

copy_rows_304 :
    (s d : ℕ) (src dst : List ℕ)
    → s + 53504 ≤ length src
    → d + 92416 ≤ length dst
    → (dst' : List ℕ) × (copy_rows 176 300 304 304 s d src dst ≡ some dst')
      × IsCopied 176 300 304 304 s d src dst dst'
copy_rows_304 s d src dst h k =
    copy_rows-IsCopied 300 304 304 src (omega arith) (omega arith) 176 s d dst (omega arith)
      (omega arith)

-- The planes one after the other: the later copies leave the earlier planes.
planes-Shows :
    (src dst d₁ d₂ d₃ : List ℕ)
    → IsCopied 176 300 304 304 0 0 src dst d₁
    → IsCopied 176 300 304 304 53504 92416 src d₁ d₂
    → IsCopied 176 300 304 304 107008 184832 src d₂ d₃
    → Shows src d₃
planes-Shows src dst d₁ d₂ d₃ c₁ c₂ c₃ zero y x b h w =
    c₃.before (0 * 92416 + y * 304 + x) (omega arith)
    ∙ c₂.before (0 * 92416 + y * 304 + x) (omega arith)
    ∙ ap (λ i. get_or d₁ i 0) (omega arith)
    ∙ c₁.row y x h w
    ∙ ap (λ i. get_or src i 0) (omega arith)
planes-Shows src dst d₁ d₂ d₃ c₁ c₂ c₃ (suc zero) y x b h w =
    c₃.before (1 * 92416 + y * 304 + x) (omega arith)
    ∙ ap (λ i. get_or d₂ i 0) (omega arith)
    ∙ c₂.row y x h w
    ∙ ap (λ i. get_or src i 0) (omega arith)
planes-Shows src dst d₁ d₂ d₃ c₁ c₂ c₃ (suc (suc zero)) y x b h w =
    ap (λ i. get_or d₃ i 0) (omega arith) ∙ c₃.row y x h w ∙ ap (λ i. get_or src i 0) (omega arith)
planes-Shows src dst d₁ d₂ d₃ c₁ c₂ c₃ (suc (suc (suc p))) y x b h w = absurd (omega arith)

copy_planes-Shows :
    (src dst : List ℕ)
    → 160512 ≤ length src
    → 277248 ≤ length dst
    → (dst' : List ℕ) × (copy_planes 300 176 304 176 src dst ≡ some dst')
      × (length dst' ≡ length dst)
      × Shows src dst'
unfolding copy_planes
copy_planes-Shows src dst h k =
    let (d₁, e₁, c₁) = copy_rows_304 0 0 src dst (omega arith) (omega arith) in
    let (d₂, e₂, c₂) =
      copy_rows_304 53504 92416 src d₁ (omega arith) (omega (arith, c₁.same_length)) in
    let (d₃, e₃, c₃) =
      copy_rows_304 107008 184832 src d₂ (omega arith)
        (omega (arith, c₁.same_length, c₂.same_length)) in
    (
      d₃,
      rw (e₁, e₂) e₃,
      omega (arith, c₁.same_length, c₂.same_length, c₃.same_length),
      planes-Shows src dst d₁ d₂ d₃ c₁ c₂ c₃,
    )

-- What the display takes of a BGR frame
pub record IsFit (f : Frame) : Type 0 where
  pub format : f.pix_format ≡ pix_bgr
  pub wide : f.width ≡ 304
  pub high : f.height ≡ 176
  pub filled : 160512 ≤ length f.pixels

copy_bgr-planes :
    (f : Frame) (dst : List ℕ) → IsFit f → copy_bgr f dst ≡ copy_planes 300 176 304 176 f.pixels dst
unfolding copy_bgr
copy_bgr-planes f dst fit = simp (fit.wide, fit.high) refl

fit-fits : (f : Frame) → IsFit f → fits f ≡ true
unfolding fits
fit-fits f fit = simp (fit.wide, fit.high) refl

up-way :
    (c : Context) (f : Frame)
    → IsUp c
    → f.pix_format ≡ pix_bgr
    → 0 < c.available_bufs
    → way c f ≡ some send_bgr
unfolding way
up-way c f (up, linked) e more = ground arith

polled-nil : (e : ℤ) (c : Context) → polled e [] c ≡ c
unfolding polled retrieve
polled-nil e c = elim c.connected as (λ b. (if b then c else c) ≡ c) [ true ↦ refl | false ↦ refl ]

display-send_copy :
    (e : ℤ) (c : Context) (f : Frame)
    → IsFit f
    → IsUp c
    → 0 < c.available_bufs
    → display_camera_frame e [] true (some c) (some f)
      ≡ (send_copy true c f >>= λ (c', packets). some (some c', packets))
unfolding display_camera_frame present_bgr
display-send_copy e c f fit up more =
    let shown = λ (o : Option (Context × List Packet)).
      let r : Option (Option Context × List Packet) =
        o >>= λ (c', packets). some (some c', packets) in
      r in
    ap
      (λ (b : Bool).
        if b
        then some (some c, [])
        else shown (present true (polled e [] c) f (way (polled e [] c) f)))
      (up.0)
    ∙ ap (λ (c₁ : Context). shown (present true c₁ f (way c₁ f))) (polled-nil e c)
    ∙ ap (λ (w : Option Way). shown (present true c f w)) (up-way c f up fit.format more)
    ∙ ap (λ (b : Bool). shown (if b then send_copy true c f else some (spend true c, [])))
        (fit-fits f fit)

-- Where the link is up and there is credit, a BGR frame of 304 x 176 is sent, given a buffer in the
-- slot of at least three planes of 304 x 304: the call returns, the packet has the id of the slot,
-- and the buffer shows the planes of the frame.
pub display-Shows :
    (e : ℤ) (c : Context) (f : Frame) {b : PictureBuffer}
    → IsUp c
    → 0 < c.available_bufs
    → IsFit f
    → get_elem? c.sendbuffer c.sendid ≡ some b
    → 277248 ≤ length b.pixels
    → (pixels : List ℕ) × (display_camera_frame e [] true (some c) (some f)
        ≡ some (some (spend true (put_pixels c b pixels)), bgr_packet c f b ∷ []))
      × Shows f.pixels pixels
unfolding send_copy
display-Shows e c f {b} up more fit slot large =
    let (pixels, copied, _, shows) = copy_planes-Shows f.pixels b.pixels fit.filled large in
    (
      pixels,
      display-send_copy e c f fit up more ∙ rw (slot, copy_bgr-planes f b.pixels fit, copied) refl,
      shows,
    )
