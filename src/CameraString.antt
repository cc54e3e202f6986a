-- ===== src/CameraString.antt =====
-- The names of src/common/camera_string.c. A code is the number of its 32 bits; `const char *` is the
-- text, and a buffer that the caller hands in is the text that is left there.
pub mod Joining
use csi_hal.Prelude.{
  ℕ, zero, suc, ◌/◌, ◌%◌, ◌^◌, ℤ, eq_int, pos, Bool, true, false, if◌then◌else◌, ◌==◌,
}
use csi_hal.Hal.{ChannelStatus, invalid, closed, opened, running, exception}
use csi_hal.Simulator.Properties.{pid_base}
use Prim.Native.String.{String, ◌++◌, len}

-- CSI_CAMERA_PID_EXPOSURE_MODE and CSI_CAMERA_PID_3A_LOCK
abbrev pub pid_exposure_mode : ℕ
pid_exposure_mode = 10094865

abbrev pub pid_3a_lock : ℕ
pid_3a_lock = 10094898

abbrev pub camera_string_enum_name : ℕ → ℕ → String
camera_string_enum_name property_id enum_id =
    if property_id == pid_exposure_mode
    then (if enum_id == 0
        then "Auto"
        else if enum_id == 1
        then "Manual"
        else if enum_id == 2
        then "Shutter Priority"
        else if enum_id == 3
        then "Aperture Priority"
        else "Unknown")
    else "Unknown"

abbrev pub camera_string_bitmask_name : ℕ → ℕ → String
camera_string_bitmask_name property_id bitmask =
    if property_id == pid_3a_lock
    then (if bitmask == 1
        then "Lock Exposure"
        else if bitmask == 2
        then "Lock White Balance"
        else if bitmask == 4
        then "Lock Focus"
        else "Unknown")
    else "Unknown"

-- Where a code has no name and `accept_unknown` is false, the name is empty.
abbrev pub unknown : Bool → String
unknown accept_unknown = if accept_unknown then "Unknown" else ""

abbrev pub camera_string_capture_type : ℕ → Bool → String
camera_string_capture_type type accept_unknown =
    if type == 1 then "Video" else if type == 2 then "Meta" else unknown accept_unknown

abbrev pub camera_string_pixel_format : ℕ → String
camera_string_pixel_format pix_fmt =
    if pix_fmt == 0
    then "I420"
    else if pix_fmt == 1
    then "NV12"
    else if pix_fmt == 2
    then "BGR"
    else "Unknown"

abbrev pub camera_string_img_type : ℕ → String
camera_string_img_type img_type =
    if img_type == 0
    then "dma-buf"
    else if img_type == 1
    then "system-contig"
    else if img_type == 2
    then "carveout"
    else if img_type == 3
    then "user-malloc"
    else if img_type == 4
    then "shared-memory"
    else "Unknown"

abbrev pub camera_string_meta_field : ℕ → Bool → String
camera_string_meta_field type accept_unknown =
    if type == 1
    then "Cam_Name"
    else if type == 2
    then "Chn_ID"
    else if type == 4
    then "Frm_ID"
    else if type == 8
    then "Timestamp"
    else if type == 16
    then "Is_HDR"
    else unknown accept_unknown

abbrev pub camera_string_chn_status : ChannelStatus → String
camera_string_chn_status invalid = "invalid"
camera_string_chn_status closed = "closed"
camera_string_chn_status opened = "opened"
camera_string_chn_status running = "running"
camera_string_chn_status exception = "Unknown"

abbrev pub camera_string_camera_event_type : ℕ → String
camera_string_camera_event_type event_id =
    if event_id == 1
    then "Event Warning"
    else if event_id == 2
    then "Event Error"
    else if event_id == 4
    then "Sensor 1st Frame"
    else if event_id == 8
    then "3A Adjust Ready"
    else "Unknown"

abbrev pub camera_string_channel_event_type : ℕ → String
camera_string_channel_event_type event_id =
    if event_id == 1
    then "Frame Ready"
    else if event_id == 2
    then "Frame put back"
    else if event_id == 4
    then "Frame overflow"
    else "Unknown"

abbrev pub camera_string_camera_action : ℕ → String
camera_string_camera_action action =
    if action == 0
    then "Do nothing"
    else if action == 1
    then "Log print"
    else if action == 2
    then "Capture Frame"
    else "Unknown"

abbrev pub camera_string_channel_action : ℕ → String
camera_string_channel_action action =
    if action == 0
    then "Do nothing"
    else if action == 1
    then "Log print"
    else if action == 2
    then "Capture Frame"
    else if action == 4
    then "Display Frame"
    else "Unknown"

-- `i & fields` where `i` is `1 << k`
unfoldable pub bit_of : ℕ → ℕ → ℕ
bit_of k fields = if fields / 2 ^ k % 2 == 0 then 0 else 2 ^ k

-- The loop of the two functions below, from `i = 1 << k` on for `n` turns: `text` is what stands in
-- the buffer.
unfoldable pub join_fields : (ℕ → String) → ℕ → ℕ → ℕ → String → Bool → String
join_fields name zero k fields text has_item = text
join_fields name (suc n) k fields text has_item =
    let item = name (bit_of k fields) in
    let text' : String = if has_item then (text ++ "|") ++ item else text ++ item in
    let skipped = join_fields name n (suc k) fields text has_item in
    let joined = join_fields name n (suc k) fields text' true in
    if len item == 0 then skipped else joined

-- `i < 0x80000000`: 31 turns.
unfoldable pub camera_string_chn_capture_types : ℕ → String
unfolding join_fields
camera_string_chn_capture_types fields =
    join_fields (λ type. camera_string_capture_type type false) 31 0 fields "" false

unfoldable pub camera_string_chn_meta_fields : ℕ → String
unfolding join_fields
camera_string_chn_meta_fields fields =
    join_fields (λ type. camera_string_meta_field type false) 31 0 fields "" false
