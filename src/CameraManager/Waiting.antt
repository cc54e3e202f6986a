-- ===== src/CameraManager/Waiting.antt =====
-- The thread of camera_manager.c that waits for events: what it hands to which callback.
use csi_hal.Prelude.{
  ℕ, ◌≤◌, ℤ, pos, negsuc, is_zero, eq_int, ◌≡◌, ◌≢◌, inl, inr, refl, ap, true, false, Option, none,
  some, List, [], ◌∷◌, ◌++◌, arith, Bool-cases,
}
use csi_hal.Hal.{Event}
use csi_hal.CameraManager.State.{Cams}
use csi_hal.CameraManager.Events.{Turn, is_channel, call, dispatch, prepend, event_thread}

-- The type of an event of one of the eight channels
abbrev pub IsChannelType : ℤ → Type 0
IsChannelType t = (n : ℕ) × (t ≡ pos n) × (1 ≤ n) × (n ≤ 8)

-- The callback for an event: the camera's if its type is 0, the channels' if it is 1 to 8, and none
-- for another type; `none` also where the callback is not registered.
pub data Chosen (c : Cams) (e : Event) : Option ℕ → Type 0 where
  of_camera : {f : Option ℕ} → e.type ≡ pos 0 → c.camera_action_fun ≡ f → Chosen c e f
  of_channel : {f : Option ℕ} → IsChannelType e.type → c.channel_action_fun ≡ f → Chosen c e f
  of_none : e.type ≢ pos 0 → ¬ IsChannelType e.type → Chosen c e none

-- The callbacks that run over the turns, with their events, in order: one for each turn at which the HAL
-- gave an event that has a callback, until the flag is down.
pub data Runs (c : Cams) : List Turn → List (ℕ × Event) → Type 0 where
  ended : Runs c [] []
  down : {t : Turn} {ts : List Turn} → t.flag ≡ false → Runs c (t ∷ ts) []
  failed :
      {t : Turn} {ts : List Turn} {xs : List (ℕ × Event)}
      → t.flag ≡ true
      → is_zero t.ret ≡ false
      → Runs c ts xs
      → Runs c (t ∷ ts) xs
  dropped :
      {t : Turn} {ts : List Turn} {xs : List (ℕ × Event)}
      → t.flag ≡ true
      → is_zero t.ret ≡ true
      → Chosen c t.event none
      → Runs c ts xs
      → Runs c (t ∷ ts) xs
  handed :
      {t : Turn} {ts : List Turn} {xs : List (ℕ × Event)} {f : ℕ}
      → t.flag ≡ true
      → is_zero t.ret ≡ true
      → Chosen c t.event (some f)
      → Runs c ts xs
      → Runs c (t ∷ ts) ((f, t.event) ∷ xs)

eq_int_zero : (t : ℤ) → eq_int t (pos 0) ≡ true → t ≡ pos 0
eq_int_zero (pos n) h = ap pos (ground arith)
eq_int_zero (negsuc n) h = cc

eq_int_ne : (t : ℤ) → eq_int t (pos 0) ≡ false → t ≢ pos 0
eq_int_ne t h e = cc (rw e at h)

is_channel-IsChannelType : (t : ℤ) → is_channel t ≡ true → IsChannelType t
is_channel-IsChannelType (pos n) h = (n, refl, ground arith, ground arith)
is_channel-IsChannelType (negsuc n) h = cc

is_channel-other : (t : ℤ) → is_channel t ≡ false → ¬ IsChannelType t
is_channel-other (pos n) h (m, e, low, high) =
    let same : n ≡ m = cc in absurd (ground (arith, same))
is_channel-other (negsuc n) h (m, e, low, high) = cc

dispatch-Chosen : (c : Cams) (e : Event) → (f : Option ℕ) × (dispatch c e ≡ call f e) × Chosen c e f
unfolding dispatch
dispatch-Chosen c e = elim (Bool-cases (eq_int e.type (pos 0))) [
  | inl camera ↦
      (c.camera_action_fun, rw (camera, dispatch) refl, of_camera (eq_int_zero e.type camera) refl)
  | inr other ↦ elim (Bool-cases (is_channel e.type)) [
    | inl channel ↦ (
      c.channel_action_fun,
      rw (other, channel, dispatch) refl,
      of_channel (is_channel-IsChannelType e.type channel) refl,
    )
    | inr unknown ↦ (
      none,
      rw (other, unknown, dispatch) refl,
      of_none (eq_int_ne e.type other) (is_channel-other e.type unknown),
    )
  ]
]

turn-Runs :
    (c : Cams) (t : Turn) (ts : List Turn) (xs : List (ℕ × Event)) (f : Option ℕ)
    → t.flag ≡ true
    → is_zero t.ret ≡ true
    → Chosen c t.event f
    → Runs c ts xs
    → Runs c (t ∷ ts) (prepend (call f t.event) xs)
turn-Runs c t ts xs none up ok chosen rest = dropped up ok chosen rest
turn-Runs c t ts xs (some f) up ok chosen rest = handed up ok chosen rest

-- Over any turns of the event thread, the callbacks that run are these, in this order and no other: one
-- for each turn before the flag is down at which the HAL gave an event, with that event; the camera's
-- callback if its type is 0, the channels' if it is 1 to 8, and none for other types or where none is
-- registered.
pub event_thread-Runs : (c : Cams) (ts : List Turn) → Runs c ts (event_thread c ts)
unfolding event_thread
event_thread-Runs c [] = ended
event_thread-Runs c (t ∷ ts) =
    let rest = event_thread-Runs c ts in
    elim (Bool-cases t.flag) [
      | inl up ↦ elim (Bool-cases (is_zero t.ret)) [
        | inl ok ↦
            let (f, e, chosen) = dispatch-Chosen c t.event in
            simp (up, ok, e) (turn-Runs c t ts (event_thread c ts) f up ok chosen rest)
        | inr bad ↦ simp (up, bad) (failed up bad rest)
      ]
      | inr stopped ↦ simp stopped (down stopped)
    ]

-- Once the thread sees the flag down, as `camera_channel_stop` leaves it, no later turn runs a
-- callback.
pub event_thread-stops :
    (c : Cams) (before after : List Turn) (t : Turn)
    → t.flag ≡ false
    → event_thread c (before ++ t ∷ after) ≡ event_thread c before
unfolding event_thread
event_thread-stops c [] after t lowered = rw (lowered, event_thread)
event_thread-stops c (b ∷ before) after t lowered = rw (event_thread-stops c before after t lowered)
