-- ===== src/Display/Tests.antt =====
-- Inputs for the theorems about the display.
use csi_hal.Prelude.{
  ℕ, ◌+◌, ◌≤◌, pos, minus_one, true, false, none, some, ◌≡◌, ◌≢◌, refl, inr, List, [], ◌∷◌, ◌++◌,
  arith, length, drop, replicate, length-replicate, get_elem?, add_u32,
}
use csi_hal.Hal.{pix_bgr, pix_nv12, ChannelCfg, no_cfg}
use csi_hal.Display.State.{PictureBuffer, Context, Frame, Packet, yuv, message}
use csi_hal.Display.{get_buffer_count, count_message, way, polled, display_camera_frame}
use csi_hal.Display.Create.{align, frame_size, vi_plink_create}
use csi_hal.Display.Window.{All}
use csi_hal.Display.Flow.{Flow, Call, turn, Reach, here, next}
use csi_hal.Display.Flow.Safe.{IsFresh, display-spares, display-bounded}
use csi_hal.Display.Starving.{display_all, misfits-starve}
use csi_hal.Display.Picture.{Shows}
use csi_hal.Display.Ready.{create-displays}

abbrev linked : Context
linked = record {
  exitplink = false;
  sendbuffer = [];
  sendid = 0;
  available_bufs = 5;
  connected = true;
}

abbrev shared_frame : Frame
shared_frame = record {
  type = 0;
  pix_format = pix_nv12;
  width = 640;
  height = 480;
  stride = 640;
  fd = 9;
  offset_u = 0;
  offset_v = 0;
  pixels = [];
}

abbrev first_call : Call
first_call = record { frame = shared_frame; polls = []; sent = true; released = 0 }

-- The peer gives the first packet back.
abbrev second_call : Call
second_call = record {
  frame = shared_frame;
  polls = record { received = true; list = message (pos 0) ∷ [] } ∷ [];
  sent = true;
  released = 1;
}

abbrev fresh_flow : Flow
fresh_flow = record { context = linked; held = [] }

abbrev after_first : Flow
after_first = record {
  context = record linked { sendid = 1; available_bufs = 4 };
  held = record { id = 1; fd = 9; width = 640; height = 480; stride = 640; layout = yuv 0 0 } ∷ [];
}

turn_first : turn minus_one first_call fresh_flow ≡ some after_first
unfolding turn
turn_first = refl

reached : Reach minus_one fresh_flow after_first
reached = next here first_call (record { owed = omega arith; holds = omega arith }) turn_first

is_fresh : IsFresh fresh_flow
is_fresh = record { slot = refl; credit = refl; none_held = refl }

abbrev still_held : List Packet
still_held = drop 1 after_first.held

display-spares_example :
    All
      (λ (p : Packet). p.id ≢ (polled minus_one second_call.polls after_first.context).sendid + 1)
      still_held
unfolding polled way get_buffer_count count_message add_u32
display-spares_example =
    display-spares is_fresh reached second_call (record { owed = omega arith; holds = omega arith })
      refl

display-bounded_example : after_first.context.available_bufs + length after_first.held ≤ 5
display-bounded_example = display-bounded is_fresh reached

abbrev square_frame : Frame
square_frame = record shared_frame { pix_format = pix_bgr; width = 300; height = 300 }

abbrev last_credit : Context
last_credit = record linked { available_bufs = 1 }

misfits-starve_example :
    (c' : Context) × (c'.available_bufs ≡ 0)
    × (display_all minus_one ((square_frame ∷ []) ++ (shared_frame ∷ [])) last_credit
        ≡ some (c', []))
misfits-starve_example =
    misfits-starve minus_one (square_frame ∷ []) shared_frame last_credit (refl, refl)
      ((refl, inr (omega arith)), tt) (omega arith)

-- A picture of 304 x 176 in one colour, and a buffer as VMEM gives it
colour : List ℕ
colour = replicate 160512 7

memory : List ℕ
memory = replicate 352256 0

colour-large : 160512 ≤ length colour
unfolding colour
colour-large = omega (arith, length-replicate {A = ℕ} 160512 7)

memory-large : 352256 ≤ length memory
unfolding memory
memory-large = omega (arith, length-replicate {A = ℕ} 352256 0)

abbrev colour_frame : Frame
colour_frame = record square_frame { width = 304; height = 176; pixels = colour }

abbrev mapped : PictureBuffer
mapped = record { bus_address = 4096; pixels = memory; fd = 5 }

abbrev bgr_cfg : ChannelCfg
bgr_cfg = record no_cfg {
  chn_id = pos 0;
  img_fmt = record { width = 304; height = 176; pix_fmt = pix_bgr };
}

large_enough : align 4096 (frame_size bgr_cfg) ≤ length memory
unfolding frame_size
large_enough = omega (arith, memory-large)

create-displays_example :
    (c c' : Context) × (b' : PictureBuffer) × (p : Packet) × (vi_plink_create
        (λ i. none)
        (λ i. 47 ∷ [])
        (some (mapped ∷ []))
        true
        (some bgr_cfg)
      ≡ some (some c))
    × (c.available_bufs ≡ 5)
    × (display_camera_frame minus_one [] true (some c) (some colour_frame) ≡ some (some c', p ∷ []))
    × (p.id ≡ 1)
    × (get_elem? c'.sendbuffer 0 ≡ some b')
    × Shows colour b'.pixels
unfolding vi_plink_create
create-displays_example =
    create-displays minus_one (λ i. none) (λ i. 47 ∷ []) bgr_cfg mapped [] colour_frame refl refl
      (omega arith) large_enough
      (record { format = refl; wide = refl; high = refl; filled = colour-large })
