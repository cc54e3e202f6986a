-- ===== src/CameraManager/State.antt =====
-- `cams_t` and what else the manager reads and writes, with the checks at the head of the operations.
use csi_hal.Prelude.{
  ℕ, ℤ, negsuc, pos, minus_one, Bool, false, not, Option, none, some, List, [], if◌then◌else◌, ◌==◌,
  replicate,
}
use Prim.Native.Nat.{bit_and}
use csi_hal.Hal.{Infos, Modes, ChannelCfg, invalid, no_cfg, channel_max_count, event_max_count}

-- `camera_state_e`, and the bit of each state
pub data CameraState : Type 0 where
  closed opened mode_set running : CameraState

abbrev pub state_code : CameraState → ℕ
state_code closed = 1
state_code opened = 2
state_code mode_set = 4
state_code running = 8

-- `camera_event_action_union_t`: the two arms of its union have the same fields.
pub record EventAction : Type 0 where
  pub target : ℕ
  pub camera_id : ℤ
  pub channel_id : ℤ
  pub event : ℕ
  pub supported : Bool
  pub subscribed : Bool
  pub action : ℕ

-- `_info_field_e`: the bits of `info_status` are the three flags of the session.
pub data InfoField : Type 0 where
  camera_infos_ready camera_modes_ready channel_init_ready : InfoField

-- `cams_t`. Handles, callbacks and threads are only passed on; 0 is a NULL handle.
pub record Cams : Type 0 where
  pub state : CameraState
  pub infos_ready : Bool
  pub modes_ready : Bool
  pub init_ready : Bool
  pub camera_id : ℤ
  pub camera_handle : ℕ
  pub camera_infos : Infos
  pub camera_modes : Modes
  pub camera_mode_id : ℤ
  pub chn_cfg : List ChannelCfg
  pub chn_cfg_tmp : ChannelCfg
  pub event_handle : ℕ
  pub camera_event_action : List EventAction
  pub channel_event_action : List (List EventAction)
  pub camera_action_fun : Option ℕ
  pub channel_action_fun : Option ℕ
  pub event_action_thread_id : ℤ

-- The thread library, as far as the manager uses it: `pthread_create` returns its code and the
-- thread, `pthread_join` its code.
pub record Threads (World : Type 0) : Type 0 where
  pub pthread_create : World → ℤ × ℤ × World
  pub pthread_join : ℤ → World → ℤ × World

-- The state outside the session: the HAL's, and the static `camera_thread_flag` of the file.
pub record Sys (World : Type 0) : Type 0 where
  pub hal : World
  pub camera_thread_flag : Bool

abbrev pub get_info_status : Cams → InfoField → Bool
get_info_status c InfoField.camera_infos_ready = c.infos_ready
get_info_status c InfoField.camera_modes_ready = c.modes_ready
get_info_status c InfoField.channel_init_ready = c.init_ready

abbrev pub set_info_status : Cams → InfoField → Bool → Cams
set_info_status c InfoField.camera_infos_ready b = record c { infos_ready = b }
set_info_status c InfoField.camera_modes_ready b = record c { modes_ready = b }
set_info_status c InfoField.channel_init_ready b = record c { init_ready = b }

abbrev no_event_action : EventAction
no_event_action = record {
  target = 0;
  camera_id = pos 0;
  channel_id = pos 0;
  event = 0;
  supported = false;
  subscribed = false;
  action = 0;
}

-- `_camera_session_reset`: the struct has nothing left of its old contents.
abbrev pub camera_session_reset : Cams
camera_session_reset = record {
  state = closed;
  infos_ready = false;
  modes_ready = false;
  init_ready = false;
  camera_id = minus_one;
  camera_handle = 0;
  camera_infos = record { count = 0; info = [] };
  camera_modes = record { count = pos 0; modes = [] };
  camera_mode_id = pos 0;
  chn_cfg = replicate channel_max_count (record no_cfg { chn_id = minus_one; status = invalid });
  chn_cfg_tmp = no_cfg;
  event_handle = 0;
  camera_event_action = replicate event_max_count no_event_action;
  channel_event_action = replicate channel_max_count (replicate event_max_count no_event_action);
  camera_action_fun = none;
  channel_action_fun = none;
  event_action_thread_id = pos 0;
}

-- `-EPERM`
abbrev pub eperm : ℤ
eperm = negsuc 0

abbrev pub Result : Type 0 → Type 0
Result W = ℤ × Option Cams × Sys W

-- `_CHECK_SESSION_RETURN`
abbrev pub check_session : {W : Type 0} → Option Cams → Sys W → (Cams → Result W) → Result W
check_session none w rest = (eperm, none, w)
check_session (some c) w rest = rest c

-- The test of `_CHECK_STATE_RETURN` on a mask of states
abbrev pub accepts : Cams → ℕ → Bool
accepts c expect = not (bit_and (state_code c.state) expect == 0)

-- `_CHECK_STATE_RETURN`
abbrev pub check_state : {W : Type 0} → Cams → ℕ → Sys W → Result W → Result W
check_state c expect w rest = if accepts c expect then rest else (eperm, some c, w)
