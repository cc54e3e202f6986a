-- ===== src/Simulator/Producer/Tests.antt =====
-- Two frames of the simulated camera and an idle dispatcher, and the theorem applied to them.
use csi_hal.Prelude.{ℕ, true, false, none, [], ◌∷◌}
use csi_hal.Llist.{update}
use csi_hal.Pca.State.{Dispatcher, waiting}
use csi_hal.Pca.Feed.{feed_running}
use csi_hal.Simulator.Frames.{frame_idle, frame_ready}
use csi_hal.Simulator.Consumer.{CameraFrame}
use csi_hal.Simulator.Producer.{Producer, datum}

abbrev idle : Dispatcher
idle = record {
  thread_info = record {
    sem_wakeup = 0;
    is_running = true;
    data_info = record { data_ptr = 0; length = 0; type = 0; consumed_callback = none };
    has_new_data = false;
    need_unlock_data_mutex = false;
    mutex_data = false;
    stats = record {
      total_delivered = 0;
      total_discarded = 0;
      total_updated = 0;
      total_consumed = 0;
    };
    phase = waiting;
  };
  consumer_list = [];
  data_free_list = [];
  consumed = [];
  processed = [];
}

abbrev frame : CameraFrame
frame = record { frame_bufs = 60; frame_status = frame_idle }

abbrev start : Producer ℕ
start = record {
  frames = record { frame_bufs = 50; frame_status = frame_ready } ∷ frame ∷ [];
  pixels = λ a. 0;
  dispatcher = idle;
}

abbrev once : Producer ℕ
once = record start {
  pixels = update start.pixels 60 7;
  dispatcher = feed_running idle (datum 1000 1);
}

abbrev twice : Producer ℕ
twice = record once {
  pixels = update once.pixels 60 8;
  dispatcher = feed_running once.dispatcher (datum 1000 1);
}
