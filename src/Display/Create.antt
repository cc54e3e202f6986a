-- ===== src/Display/Create.antt =====
-- `vi_plink_create` of examples/camera/camera_frame_display.c: the name of the channel, the buffers
-- with their first picture, and the context.
use csi_hal.Prelude.{
  ℕ, ◌+◌, ◌-◌, ◌*◌, ◌/◌, min, ℤ, pos, negsuc, Bool, false, Option, none, some, List, map,
  if◌then◌else◌, ◌==◌, ltb, ◌>>=◌, length, take, replicate, write_at,
}
use csi_hal.Hal.{pix_bgr, ChannelCfg}
use csi_hal.Display.State.{num_of_buffers, PictureBuffer, Context}

-- `plinkname`, which has place for 31 bytes: the variable of the environment if it is set.
unfoldable pub plink_name : (ℕ → Option (List ℕ)) → (ℕ → List ℕ) → ℤ → Option (List ℕ)
plink_name env base chn_id =
    let i : ℕ = elim chn_id [ pos n ↦ min n 2 | negsuc n ↦ 2 ] in
    let name : List ℕ = elim (env i) [ none ↦ base i | some name ↦ name ] in
    if ltb (length name) 32 then some name else none

-- `(n + (unit - 1)) & ~(unit - 1)` for a power of two
abbrev pub align : ℕ → ℕ → ℕ
align unit n = (n + (unit - 1)) / unit * unit

unfoldable pub stride_of : ChannelCfg → ℕ
stride_of cfg = align 128 cfg.img_fmt.width

-- `framesize`, as each format computes it
unfoldable pub frame_size : ChannelCfg → ℕ
unfolding stride_of
frame_size cfg =
    if cfg.img_fmt.pix_fmt == pix_bgr
    then stride_of cfg * 304 * 3
    else stride_of cfg * cfg.img_fmt.height * 3 / 2

-- The picture that a buffer starts with: black in its format.
unfoldable pub black : ChannelCfg → List ℕ → List ℕ
unfolding stride_of frame_size
black cfg memory =
    let lumasize = stride_of cfg * cfg.img_fmt.height in
    if cfg.img_fmt.pix_fmt == pix_bgr
    then write_at memory 0 (replicate (frame_size cfg) 0)
    else write_at (write_at memory 0 (replicate lumasize 0)) lumasize
        (replicate (lumasize / 2) 0x80)

-- `allocate_sendbuffers` with the fill behind it: `maps i` is the i-th buffer that VMEM gives, its
-- memory cut to the size that was asked for.
unfoldable pub allocate_sendbuffers : ChannelCfg → List PictureBuffer → List PictureBuffer
unfolding frame_size black
allocate_sendbuffers cfg maps =
    map
      (λ (b : PictureBuffer). record b {
        pixels = black cfg (take (align 4096 (frame_size cfg)) b.pixels);
      })
      maps

-- `vi_plink_create` with memory: `maps` are the buffers that VMEM gives, `none` where it cannot be
-- created, and `connected` is whether PLINK_create sets a handle.
unfoldable pub vi_plink_create :
    (ℕ → Option (List ℕ))
    → (ℕ → List ℕ)
    → Option (List PictureBuffer)
    → Bool
    → Option ChannelCfg
    → Option (Option Context)
unfolding plink_name allocate_sendbuffers
vi_plink_create env base maps connected none = some none
vi_plink_create env base maps connected (some cfg) = do
  name ← plink_name env base cfg.chn_id
  some (elim maps [
    | none ↦ none
    | some maps ↦ some (record {
      exitplink = false;
      sendbuffer = allocate_sendbuffers cfg maps;
      sendid = 0;
      available_bufs = num_of_buffers;
      connected = connected;
    })
  ])
