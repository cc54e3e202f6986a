-- ===== src/Display/Ready.antt =====
-- A context that `vi_plink_create` made for a BGR channel, and the first frame shown with it.
use csi_hal.Prelude.{
  ℕ, ◌*◌, ◌≤◌, ◌<◌, ℤ, true, false, Option, some, ◌≡◌, refl, List, [], ◌∷◌, arith, length,
  get_elem?, take, map, length-take, length-write_at, replicate,
}
use csi_hal.Hal.{pix_bgr, ChannelCfg}
use csi_hal.Display.State.{PictureBuffer, Context, Frame, Packet}
use csi_hal.Display.{display_camera_frame, spend, put_pixels, bgr_packet}
use csi_hal.Display.Create.{
  plink_name, align, stride_of, frame_size, black, allocate_sendbuffers, vi_plink_create,
}
use csi_hal.Display.Picture.{Shows, IsFit, display-Shows}

frame_size-bgr :
    (cfg : ChannelCfg)
    → cfg.img_fmt.pix_fmt ≡ pix_bgr
    → 256 < cfg.img_fmt.width
    → 277248 ≤ align 4096 (frame_size cfg)
unfolding frame_size
frame_size-bgr cfg e wide = rw e (omega arith)

-- The first picture is written inside the memory.
length-black :
    (cfg : ChannelCfg) (memory : List ℕ)
    → cfg.img_fmt.pix_fmt ≡ pix_bgr
    → length (black cfg memory) ≡ length memory
unfolding black
length-black cfg memory e = rw e (length-write_at memory 0 (replicate (stride_of cfg * 304 * 3) 0))

-- What `vi_plink_create` makes of a buffer that VMEM gives
abbrev blackened : ChannelCfg → PictureBuffer → PictureBuffer
blackened cfg b = record b { pixels = black cfg (take (align 4096 (frame_size cfg)) b.pixels) }

large-blackened :
    (cfg : ChannelCfg) (b : PictureBuffer)
    → cfg.img_fmt.pix_fmt ≡ pix_bgr
    → 256 < cfg.img_fmt.width
    → align 4096 (frame_size cfg) ≤ length b.pixels
    → 277248 ≤ length (black cfg (take (align 4096 (frame_size cfg)) b.pixels))
large-blackened cfg b e wide large = omega (
  arith,
  length-black cfg (take (align 4096 (frame_size cfg)) b.pixels) e,
  length-take (align 4096 (frame_size cfg)) b.pixels,
  frame_size-bgr cfg e wide,
)

-- For a BGR channel of a width above 256, with a short name, memory from VMEM as large as asked for
-- and a link: `vi_plink_create` gives a context with all five credits, and the first BGR frame of 304
-- x 176 that is displayed on it is sent as the packet with the id 1, and is shown by the first buffer.
pub create-displays :
    (e : ℤ) (env : ℕ → Option (List ℕ)) (base : ℕ → List ℕ) (cfg : ChannelCfg) (b : PictureBuffer)
    (maps : List PictureBuffer) (f : Frame) {name : List ℕ}
    → plink_name env base cfg.chn_id ≡ some name
    → cfg.img_fmt.pix_fmt ≡ pix_bgr
    → 256 < cfg.img_fmt.width
    → align 4096 (frame_size cfg) ≤ length b.pixels
    → IsFit f
    → (c c' : Context) × (b' : PictureBuffer) × (p : Packet) × (vi_plink_create env base
          (some (b ∷ maps))
          true
          (some cfg)
        ≡ some (some c))
      × (c.available_bufs ≡ 5)
      × (display_camera_frame e [] true (some c) (some f) ≡ some (some c', p ∷ []))
      × (p.id ≡ 1)
      × (get_elem? c'.sendbuffer 0 ≡ some b')
      × Shows f.pixels b'.pixels
unfolding vi_plink_create allocate_sendbuffers
create-displays e env base cfg b maps f named bgr wide large fit =
    let c : Context = record {
      exitplink = false;
      sendbuffer = blackened cfg b ∷ map (blackened cfg) maps;
      sendid = 0;
      available_bufs = 5;
      connected = true;
    } in
    let b₁ : PictureBuffer = blackened cfg b in
    let (pixels, shown, shows) =
      display-Shows e c f (refl, refl) (omega arith) fit refl
        (large-blackened cfg b bgr wide large) in
    (
      c,
      spend true (put_pixels c b₁ pixels),
      record b₁ { pixels = pixels },
      bgr_packet c f b₁,
      rw named refl,
      refl,
      shown,
      omega arith,
      refl,
      shows,
    )
