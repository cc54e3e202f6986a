-- ===== src/Display/Flow.antt =====
-- The client of the display with its peer: a call of `display_camera_frame`, and behind it the peer
-- holds what it has received and not given back. It gives packets back in the order it got them.
pub mod Safe
use csi_hal.Prelude.{
  ℕ, zero, suc, ◌+◌, ◌-◌, ◌%◌, ◌≤◌, ◌<◌, ℤ, Bool, true, false, Option, none, some, ◌≡◌, ◌≢◌, refl,
  List, [], ◌∷◌, ◌++◌, arith, length, drop, ◌>>=◌,
}
use csi_hal.Display.State.{Context, Frame, Packet}
use csi_hal.Display.{Poll, Way, display_camera_frame, polled, way}
use csi_hal.Display.Credits.{credits}

pub record Flow : Type 0 where
  pub context : Context
  pub held : List Packet

-- One call, with what the library answers in it, and how many packets the peer lets go before.
pub record Call : Type 0 where
  pub frame : Frame
  pub polls : List Poll
  pub sent : Bool
  pub released : ℕ

-- The peer asks only for credits of packets that it lets go, and holds what it lets go.
pub record IsFair (k : Call) (s : Flow) : Type 0 where
  pub owed : credits k.polls ≤ k.released
  pub holds : k.released ≤ length s.held

unfoldable pub turn : ℤ → Call → Flow → Option Flow
unfolding display_camera_frame
turn exit_code k s =
    display_camera_frame exit_code k.polls k.sent (some s.context) (some k.frame)
    >>= λ (c, packets).
        c >>= λ c. some (record { context = c; held = drop k.released s.held ++ packets })

pub data Reach (exit_code : ℤ) (s : Flow) : Flow → Type 0 where
  here : Reach exit_code s s
  next :
      {t u : Flow}
      → Reach exit_code s t
      → (k : Call) → IsFair k t
      → turn exit_code k t ≡ some u
      → Reach exit_code s u
