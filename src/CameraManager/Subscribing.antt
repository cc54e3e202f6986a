-- ===== src/CameraManager/Subscribing.antt =====
-- The requests that `camera_subscribe_event` of camera_manager.c makes, as one list.
use csi_hal.Prelude.{
  ℕ, suc, ◌+◌, pos, ◌≡◌, refl, ap, sym, inl, inr, ◌∙◌, Bool, true, false, some, List, [], ◌∷◌, ◌++◌,
  arith, if◌then◌else◌, Bool-cases,
}
use csi_hal.Hal.{Hal, ChannelCfg, Subscription, opened, is_status}
use csi_hal.CameraManager.State.{EventAction, Cams, Sys, accepts}
use csi_hal.CameraManager.Device.{idle_states}
use csi_hal.CameraManager.Events.{
  type_channel0, request, request_all, request_channels, camera_subscribe_event,
}

-- A request: whether to subscribe, and to what.
abbrev pub Request : Type 0
Request = Bool × Subscription

-- A supported event is asked for as its entry says, an unsupported one not at all.
abbrev pub requests_of : ℕ → List EventAction → List Request
requests_of type [] = []
requests_of type (a ∷ table) =
    if a.supported
    then (a.subscribed, record { type = pos type; id = a.event }) ∷ requests_of type table
    else requests_of type table

-- The channels from `chn` on: those that are opened, each with its own type.
abbrev pub channel_requests : ℕ → List ChannelCfg → List (List EventAction) → List Request
channel_requests chn [] tables = []
channel_requests chn (cfg ∷ cfgs) [] = []
channel_requests chn (cfg ∷ cfgs) (table ∷ tables) =
    if is_status cfg.status opened
    then requests_of (suc chn) table ++ channel_requests (suc chn) cfgs tables
    else channel_requests (suc chn) cfgs tables

abbrev pub requests : Cams → List Request
requests c =
    requests_of 0 c.camera_event_action ++ channel_requests 0 c.chn_cfg c.channel_event_action

module _ (hal : Hal) (event_handle : ℕ) where
  abbrev pub ask : Request → hal.World → hal.World
  ask (true, s) h = (hal.csi_camera_subscribe_event event_handle s h).1
  ask (false, s) h = (hal.csi_camera_unsubscribe_event event_handle s h).1

  abbrev pub ask_all : List Request → hal.World → hal.World
  ask_all [] h = h
  ask_all (r ∷ rs) h = ask_all rs (ask r h)

  ask_all-append :
      (rs ss : List Request) (h : hal.World) → ask_all (rs ++ ss) h ≡ ask_all ss (ask_all rs h)
  ask_all-append [] ss h = refl
  ask_all-append (r ∷ rs) ss h = ask_all-append rs ss (ask r h)

  request_all-ask :
      (type : ℕ) (table : List EventAction) (h : hal.World)
      → request_all hal event_handle type table h ≡ ask_all (requests_of type table) h
  unfolding request_all request
  request_all-ask type [] h = refl
  request_all-ask type (a ∷ table) h = elim (Bool-cases a.supported) [
    | inl yes_it_is ↦ elim (Bool-cases a.subscribed) [
      | inl sub ↦ simp (yes_it_is, sub) (request_all-ask type table _)
      | inr unsub ↦ simp (yes_it_is, unsub) (request_all-ask type table _)
    ]
    | inr not_it ↦ simp not_it (request_all-ask type table h)
  ]

  request_channels-ask :
      (chn : ℕ) (cfgs : List ChannelCfg) (tables : List (List EventAction)) (h : hal.World)
      → request_channels hal event_handle chn cfgs tables h
        ≡ ask_all (channel_requests chn cfgs tables) h
  unfolding request_channels
  request_channels-ask chn [] tables h = refl
  request_channels-ask chn (cfg ∷ cfgs) [] h = refl
  request_channels-ask chn (cfg ∷ cfgs) (table ∷ tables) h =
      elim (Bool-cases (is_status cfg.status opened)) [
        | inl up ↦
            let first = requests_of (suc chn) table in
            let type : type_channel0 + chn ≡ suc chn = omega arith in
            rw (up, request_channels, type)
              (request_channels-ask (suc chn) cfgs tables _
                ∙ ap (λ g. ask_all (channel_requests (suc chn) cfgs tables) g)
                    (request_all-ask (suc chn) table h)
                ∙ sym (ask_all-append first (channel_requests (suc chn) cfgs tables) h))
        | inr down ↦ rw (down, request_channels) (request_channels-ask (suc chn) cfgs tables h)
      ]

-- In the states that it is meant for, `camera_subscribe_event` returns 0 whatever the HAL answers,
-- leaves the session as it is, and makes exactly these calls of the HAL, in this order: one for each
-- supported event of the camera and then of each opened channel, a subscription if the entry is
-- marked as subscribed and its removal if not.
pub subscribe-requests :
    (hal : Hal) (c : Cams) (w : Sys hal.World)
    → accepts c idle_states ≡ true
    → camera_subscribe_event hal (some c) w
      ≡ (pos 0, some c, record w { hal = ask_all hal c.event_handle (requests c) w.hal })
unfolding camera_subscribe_event
subscribe-requests hal c w ok =
    let e = c.event_handle in
    let calls : request_channels hal e 0 c.chn_cfg c.channel_event_action
          (request_all hal e 0 c.camera_event_action w.hal)
        ≡ ask_all hal e (requests c) w.hal =
      request_channels-ask hal e 0 c.chn_cfg c.channel_event_action _
      ∙ ap (λ g. ask_all hal e (channel_requests 0 c.chn_cfg c.channel_event_action) g)
          (request_all-ask hal e 0 c.camera_event_action w.hal)
      ∙ sym (ask_all-append hal e (requests_of 0 c.camera_event_action) _ w.hal) in
    rw (ok, calls)
