-- ===== src/Display/Flow/Safe.antt =====
-- The display never uses a slot whose packet its peer still holds.
use csi_hal.Prelude.{
  ℕ, suc, ◌+◌, ◌-◌, ◌%◌, ◌≤◌, ◌<◌, ℤ, Bool, true, false, Option, none, some, ◌≡◌, ◌≢◌, refl, List,
  [], ◌++◌, ◌∙◌, arith, length, drop, get_elem?, ◌>>=◌, if◌then◌else◌,
}
use mathlib.Core.Path.{subst}
use mathlib.Core.List.{append-nil}
use csi_hal.Display.State.{Context, Frame, raw, yuv, Packet}
use csi_hal.Display.{
  Way, send_raw, send_yuv, send_bgr, display_camera_frame, polled, way, present, present_bgr,
  send_copy, copy_bgr, fits, spend, if_sent, describe_frame, bgr_packet, put_pixels,
}
use csi_hal.Display.Window.{
  All, Window, Window-lower, Window-suc, Window-length, Window-drop, Window-append, Window-spares,
}
use csi_hal.Display.Credits.{polled-IsCredited}
use csi_hal.Display.Flow.{Flow, Call, IsFair, turn, Reach, here, next}

-- `n` slots were used and `lo` given back: the rest is credit, and the peer holds none older.
record IsBalanced (n lo : ℕ) (s : Flow) : Type 0 where
  balance : lo + 5 ≡ n + s.context.available_bufs
  slot : s.context.sendid ≡ n % 5
  window : Window n lo s.held

abbrev Balanced : Flow → Type 0
Balanced s = (n : ℕ) × (lo : ℕ) × IsBalanced n lo s

abbrev flow : Context → List Packet → Flow
flow c held = record { context = c; held = held }

way-available : (c : Context) (f : Frame) {w : Way} → way c f ≡ some w → 0 < c.available_bufs
unfolding way
way-available c f e = ground arith

-- The polls of a fair call
polled-Balanced :
    (e : ℤ) (k : Call) (s : Flow)
    → IsFair k s
    → Balanced s
    → Balanced (flow (polled e k.polls s.context) (drop k.released s.held))
polled-Balanced e k s fair (n, lo, b) =
    let got = polled-IsCredited e k.polls s.context in
    (
      n,
      lo + got.more,
      record {
        balance = omega (arith, got.added, b.balance);
        slot = got.same_slot ∙ b.slot;
        window =
            Window-lower n (lo + k.released) (lo + got.more) (drop k.released s.held)
              (omega (arith, got.given, fair.owed))
              (Window-drop n lo k.released s.held fair.holds b.window);
      },
    )

-- A call that does not poll
skipped-Balanced :
    (k : Call) (s : Flow)
    → IsFair k s
    → Balanced s
    → Balanced (flow s.context (drop k.released s.held))
skipped-Balanced k s fair (n, lo, b) = (
  n,
  lo,
  record {
    balance = b.balance;
    slot = b.slot;
    window =
        Window-lower n (lo + k.released) lo (drop k.released s.held) (omega arith)
          (Window-drop n lo k.released s.held fair.holds b.window);
  },
)

-- A slot is spent, and its packet sent or not.
spend-Balanced :
    (sent : Bool) (c c' : Context) (held : List Packet) (p : Packet)
    → c'.sendid ≡ (c.sendid + 1) % 5
    → c'.available_bufs ≡ c.available_bufs - 1
    → p.id ≡ c.sendid + 1
    → 0 < c.available_bufs
    → Balanced (flow c held)
    → Balanced (flow c' (held ++ if_sent sent p))
spend-Balanced true c c' held p slot less e more (n, lo, b) = (
  suc n,
  lo,
  record {
    balance = omega (arith, b.balance);
    slot = omega (arith, b.slot);
    window = Window-append n lo held p (omega (arith, b.slot)) b.window;
  },
)
spend-Balanced false c c' held p slot less e more (n, lo, b) = (
  suc n,
  lo,
  record {
    balance = omega (arith, b.balance);
    slot = omega (arith, b.slot);
    window = rw append-nil (Window-suc n lo held b.window);
  },
)

-- What a call leaves, where it has a result
abbrev Leaves : List Packet → Option (Context × List Packet) → Type 0
Leaves held none = Unit
Leaves held (some (c, packets)) = Balanced (flow c (held ++ packets))

Leaves-bind :
    {A : Type 0} (held : List Packet) (o : Option A) (f : A → Option (Context × List Packet))
    → ((a : A) → Leaves held (f a))
    → Leaves held (o >>= f)
Leaves-bind held none f h = tt
Leaves-bind held (some a) f h = h a

send_copy-Leaves :
    (sent : Bool) (c : Context) (f : Frame) (held : List Packet)
    → 0 < c.available_bufs
    → Balanced (flow c held)
    → Leaves held (send_copy sent c f)
unfolding send_copy
send_copy-Leaves sent c f held more b =
    Leaves-bind held (get_elem? c.sendbuffer c.sendid)
      (λ buf. copy_bgr f buf.pixels >>= λ pixels.
        some (spend sent (put_pixels c buf pixels), if_sent sent (bgr_packet c f buf)))
      (λ buf.
        Leaves-bind held (copy_bgr f buf.pixels)
          (λ pixels. some (spend sent (put_pixels c buf pixels), if_sent sent (bgr_packet c f buf)))
          (λ pixels.
            spend-Balanced sent c (spend sent (put_pixels c buf pixels)) held (bgr_packet c f buf)
              refl refl refl more b))

present-Leaves :
    (sent : Bool) (c : Context) (f : Frame) (w : Option Way) (held : List Packet)
    → way c f ≡ w
    → Balanced (flow c held)
    → Leaves held (present sent c f w)
unfolding present present_bgr
present-Leaves sent c f none held e b = rw append-nil b
present-Leaves sent c f (some send_raw) held e b =
    spend-Balanced sent c _ held (describe_frame c f raw) refl refl refl (way-available c f e) b
present-Leaves sent c f (some send_yuv) held e b =
    spend-Balanced sent c _ held (describe_frame c f (yuv f.offset_u f.offset_v)) refl refl refl
      (way-available c f e) b
present-Leaves sent c f (some send_bgr) held e b =
    let more : 0 < c.available_bufs = way-available c f e in
    let unsent : Balanced (flow (spend true c) (held ++ [])) =
      spend-Balanced false c (spend true c) held (describe_frame c f raw) refl refl refl more b in
    elim (fits f)
      as (λ fit. Leaves held (if fit then send_copy sent c f else some (spend true c, []))) [
        | true ↦ send_copy-Leaves sent c f held more b
        | false ↦ unsent
      ]

-- What a turn leaves, where it has a result
abbrev Ends : Option Flow → Type 0
Ends none = Unit
Ends (some t) = Balanced t

shown-Ends :
    (held : List Packet) (o : Option (Context × List Packet))
    → Leaves held o
    → Ends (
        o >>= (λ (c, packets). some (some c, packets)) >>= λ (c, packets).
        c >>= λ c. some (flow c (held ++ packets)))
shown-Ends held none l = tt
shown-Ends held (some (c, packets)) l = l

turn-Ends : (e : ℤ) (k : Call) (s : Flow) → IsFair k s → Balanced s → Ends (turn e k s)
unfolding turn display_camera_frame
turn-Ends e k s fair b =
    let c₁ : Context = polled e k.polls s.context in
    let held : List Packet = drop k.released s.held in
    elim s.context.exitplink
      as (λ exit. Ends (
        (if exit
          then some (some s.context, [])
          else present k.sent c₁ k.frame (way c₁ k.frame) >>= λ (c, packets).
              some (some c, packets))
        >>= λ (c, packets). c >>= λ c. some (flow c (held ++ packets)))) [
          | true ↦ rw append-nil (skipped-Balanced k s fair b)
          | false ↦ shown-Ends held (present k.sent c₁ k.frame (way c₁ k.frame)) (
              present-Leaves k.sent c₁ k.frame (way c₁ k.frame) held refl
                (polled-Balanced e k s fair b))
        ]

-- A context as `vi_plink_create` leaves it, with a peer that holds nothing
pub record IsFresh (s : Flow) : Type 0 where
  pub slot : s.context.sendid ≡ 0
  pub credit : s.context.available_bufs ≡ 5
  pub none_held : s.held ≡ []

Reach-Balanced : {e : ℤ} {s t : Flow} → IsFresh s → Reach e s t → Balanced t
Reach-Balanced {s} fresh here = (
  0,
  0,
  record {
    balance = omega (arith, fresh.credit);
    slot = omega (arith, fresh.slot);
    window = rw (fresh.none_held) (omega arith);
  },
)
Reach-Balanced {e} fresh (next {t} r k fair step) =
    subst Ends step (turn-Ends e k t fair (Reach-Balanced fresh r))

-- From a fresh context on, with a peer that gives packets back in order and asks only for the
-- credits of those: when a call is about to send, the peer holds no packet with the id of the slot
-- that it uses, so no buffer is written that the peer may still read.
pub display-spares :
    {e : ℤ} {s t : Flow} (fresh : IsFresh s) (r : Reach e s t) (k : Call) (fair : IsFair k t)
    {w : Way}
    → way (polled e k.polls t.context) k.frame ≡ some w
    → All (λ (p : Packet). p.id ≢ (polled e k.polls t.context).sendid + 1) (drop k.released t.held)
display-spares {e} {t} fresh r k fair chosen =
    let (n, lo, b) = polled-Balanced e k t fair (Reach-Balanced fresh r) in
    let more = way-available (polled e k.polls t.context) k.frame chosen in
    rw (b.slot)
      (Window-spares n lo (drop k.released t.held) (omega (arith, b.balance, more)) b.window)

-- From a fresh context on, with such a peer, the credits of the client and the packets that the
-- peer holds are together never more than the five buffers.
pub display-bounded :
    {e : ℤ} {s t : Flow} → IsFresh s → Reach e s t → t.context.available_bufs + length t.held ≤ 5
display-bounded {t} fresh r =
    let (n, lo, b) = Reach-Balanced fresh r in
    omega (arith, b.balance, Window-length n lo t.held b.window)
