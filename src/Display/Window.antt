-- ===== src/Display/Window.antt =====
-- The packets that the peer of the display holds, oldest first: each was sent for a slot of its own,
-- counted from the start, and its id is that slot's.
use csi_hal.Prelude.{
  ℕ, zero, suc, ◌+◌, ◌%◌, ◌≤◌, ◌<◌, ◌≡◌, ◌≢◌, List, [], ◌∷◌, ◌++◌, arith, length, drop,
}
use csi_hal.Display.State.{Packet}

abbrev pub All {ℓ} : {A : Type ℓ} → (A → Type 0) → List A → Type 0
All P [] = Unit
All P (x ∷ xs) = P x × All P xs

-- The packets were sent for slots from `lo` on, in order, below the `n`-th.
abbrev pub Window : ℕ → ℕ → List Packet → Type 0
Window n lo [] = lo ≤ n
Window n lo (p ∷ ps) = (s : ℕ) × (lo ≤ s) × (s < n) × (p.id ≡ s % 5 + 1) × Window n (suc s) ps

-- An id of a slot less than five slots old is not that of the next slot.
slot-ne : (id s n : ℕ) → id ≡ s % 5 + 1 → s < n → n < s + 5 → id ≢ n % 5 + 1
slot-ne id s n e a b h = absurd (omega arith)

pub Window-lower : (n lo lo' : ℕ) (ps : List Packet) → lo' ≤ lo → Window n lo ps → Window n lo' ps
Window-lower n lo lo' [] h w = omega arith
Window-lower n lo lo' (p ∷ ps) h (s, a, b, e, w) = (s, omega arith, b, e, w)

pub Window-suc : (n lo : ℕ) (ps : List Packet) → Window n lo ps → Window (suc n) lo ps
Window-suc n lo [] w = omega arith
Window-suc n lo (p ∷ ps) (s, a, b, e, w) = (s, a, omega arith, e, Window-suc n (suc s) ps w)

pub Window-length : (n lo : ℕ) (ps : List Packet) → Window n lo ps → lo + length ps ≤ n
Window-length n lo [] w = omega arith
Window-length n lo (p ∷ ps) (s, a, b, e, w) = omega (arith, Window-length n (suc s) ps w)

-- Each packet that is given back moves the window on.
pub Window-drop :
    (n lo k : ℕ) (ps : List Packet) → k ≤ length ps → Window n lo ps → Window n (lo + k) (drop k ps)
Window-drop n lo zero ps h w = Window-lower n lo (lo + 0) ps (omega arith) w
Window-drop n lo (suc k) [] h w = absurd (omega arith)
Window-drop n lo (suc k) (p ∷ ps) h (s, a, b, e, w) =
    Window-lower n (suc s + k) (lo + suc k) (drop k ps) (omega arith)
      (Window-drop n (suc s) k ps (omega arith) w)

pub Window-append :
    (n lo : ℕ) (ps : List Packet) (p : Packet)
    → p.id ≡ n % 5 + 1
    → Window n lo ps
    → Window (suc n) lo (ps ++ (p ∷ []))
Window-append n lo [] p e w = (n, w, omega arith, e, omega arith)
Window-append n lo (q ∷ ps) p e (s, a, b, f, w) =
    (s, a, omega arith, f, Window-append n (suc s) ps p e w)

-- With fewer than five slots behind it, the next slot's id is not in the window.
pub Window-spares :
    (n lo : ℕ) (ps : List Packet)
    → n < lo + 5
    → Window n lo ps
    → All (λ (p : Packet). p.id ≢ n % 5 + 1) ps
Window-spares n lo [] h w = tt
Window-spares n lo (p ∷ ps) h (s, a, b, e, w) =
    (slot-ne p.id s n e b (omega arith), Window-spares n (suc s) ps (omega arith) w)
