-- ===== src/Prelude/Words.antt =====
-- uint32_t arithmetic: sums and differences modulo 2 ^ 32.
use Prim.Native.Nat.{ℕ, ◌+◌, ◌-◌, ◌%◌, ◌^◌, ◌≤◌, ◌<◌}
use mathlib.Core.Path.{◌≡◌}
use native.Mathlib.Omega.{arith}
use native.Mathlib.Decide.{dec_lt}
use native.Mathlib.Nat.{mod-eq_of_lt, mod-eq-sub-mod}
use csi_hal.Prelude.Tests.{ltb, if◌then◌else◌}

abbrev pub u32 : ℕ
u32 = 2 ^ 32

unfoldable pub add_u32 : ℕ → ℕ → ℕ
add_u32 a b = (a + b) % u32

unfoldable pub sub_u32 : ℕ → ℕ → ℕ
sub_u32 a b = (a + u32 - b) % u32

pub add_u32-eq : (a b : ℕ) → a + b < u32 → add_u32 a b ≡ a + b
unfolding add_u32
add_u32-eq a b h = omega arith

pub sub_u32-eq : (a b : ℕ) → b ≤ a → a < u32 → sub_u32 a b ≡ a - b
unfolding sub_u32
sub_u32-eq a b h k = omega arith

-- An index below twice the size, brought back below the size.
abbrev pub wrap : ℕ → ℕ → ℕ
wrap s x = if ltb x s then x else x - s

pub mod-wrap : (s x : ℕ) → x < s + s → x % s ≡ wrap s x
mod-wrap s x h = elim (dec_lt x s) [
  | yes p ↦ ground (arith, mod-eq_of_lt p)
  | no p ↦ ground (
    arith,
    mod-eq-sub-mod {n = x} {m = s} (omega arith),
    mod-eq_of_lt {n = x - s} {m = s} (omega arith),
  )
]
