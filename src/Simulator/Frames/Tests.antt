-- ===== src/Simulator/Frames/Tests.antt =====
-- A channel of three frames, two of them ready.
use csi_hal.Prelude.{[], ◌∷◌}
use csi_hal.Hal.{no_cfg}
use csi_hal.Simulator.Frames.{Frame, Channel}

abbrev channel : Channel
channel = record {
  cfg = record no_cfg { frm_cnt = 3 };
  slots =
      record { frame_buf = 11; frame_status = 3; refcount = 1 }
      ∷ record { frame_buf = 12; frame_status = 1; refcount = 0 }
      ∷ record { frame_buf = 13; frame_status = 3; refcount = 0 }
      ∷ [];
}

abbrev asked : Frame
asked = record {
  type = 0;
  size = 0;
  width = 0;
  height = 0;
  pix_format = 0;
  num_planes = 0;
  strides = (0, 0);
  offsets = (0, 0);
  usr_addr = (0, 0);
}

abbrev held : Frame
held = record asked { type = 3; usr_addr = (11, 0) }

abbrev next : Frame
next = record asked { type = 3; num_planes = 2; usr_addr = (13, 0) }
