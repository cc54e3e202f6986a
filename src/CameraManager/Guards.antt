-- ===== src/CameraManager/Guards.antt =====
-- Calls of camera_manager.c that are refused, and two flaws in its bookkeeping.
use csi_hal.Prelude.{
  ℕ, pos, minus_one, to_u32, ◌≡◌, ◌⊎◌, inl, inr, refl, true, none, some, arith, Option-cases,
  get_elem?,
}
use csi_hal.Hal.{Hal, ChannelCfg}
use csi_hal.CameraManager.State.{Cams, Sys, Threads, eperm}
use csi_hal.CameraManager.Device.{
  camera_query_list, camera_get_modes, camera_set_mode, camera_query_property, camera_set_property,
  camera_open, camera_close, camera_get_caps,
}
use csi_hal.CameraManager.Channel.{
  camera_channel_query_list, open_channel, open_listed, listed, camera_channel_open, close_channel,
  camera_channel_close, camera_channel_start, camera_channel_stop,
}
use csi_hal.CameraManager.Events.{camera_subscribe_event, camera_register_event_action}
use csi_hal.CameraManager.Lifecycle.{list, K, exec}

module _ (hal : Hal) (threads : Threads hal.World) where
  -- Every call but `camera_query_list` refuses a NULL session with -EPERM and calls nothing;
  -- `camera_query_list` reads through the pointer.
  pub exec-null :
      (k : K hal threads) (w : Sys hal.World)
      → (exec hal threads k none w ≡ some (eperm, none, w)) ⊎ (k ≡ list)
  unfolding exec camera_get_caps camera_close camera_open camera_get_modes camera_set_mode
      camera_query_property camera_subscribe_event camera_channel_start camera_channel_query_list
      camera_set_property camera_channel_open camera_channel_close camera_channel_stop
      camera_register_event_action
  exec-null list w = inr refl
  exec-null k w = inl refl

  -- `camera_query_list` reports success and marks the list ready whatever the HAL answers, its
  -- failure included.
  pub query_list-hides :
      (c : Cams) (w : Sys hal.World)
      → let (ret, c', _) = camera_query_list hal c w in (ret ≡ pos 0) × (c'.infos_ready ≡ true)
  unfolding camera_query_list
  query_list-hides c w = ground arith

  -- After a close of a channel that succeeded, the session's copy still says that it is opened: with
  -- the list of channels read before, a new open of the channel is refused without asking the HAL.
  pub close-open_refused :
      (c c' : Cams) (id : ℕ) (cfg : ChannelCfg) (w w' : Sys hal.World)
      → camera_channel_close hal threads (some c) id w ≡ some (pos 0, some c', w')
      → c.init_ready ≡ true
      → to_u32 cfg.chn_id ≡ id
      → camera_channel_open hal threads (some c') cfg w' ≡ some (minus_one, some c', w')
  unfolding camera_channel_close close_channel camera_channel_open open_listed listed open_channel
  close-open_refused c c' id cfg w w' done ready same =
      elim (Option-cases (get_elem? c.chn_cfg id)) [
        | inl e ↦ ground arith
        | inr (old, e) ↦ ground arith
      ]
