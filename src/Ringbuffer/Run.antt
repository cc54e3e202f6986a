-- ===== src/Ringbuffer/Run.antt =====
-- Any sequence of calls: a valid buffer cannot be told from a bounded queue of bytes.
use csi_hal.Prelude.{
  ℕ, ◌-◌, ◌≤◌, ◌≡◌, refl, List, [], ◌∷◌, ◌++◌, Option, none, some, arith, min, take, drop, length,
  length-tabulate,
}
use csi_hal.Ringbuffer.{Ringbuffer, ringbuffer_reset, ringbuffer_in, ringbuffer_out}
use csi_hal.Ringbuffer.Valid.{IsValid}
use csi_hal.Ringbuffer.Refine.{byte_at, contents, Filled, HasRoom, in_refines, out_refines}

-- What a client may call, and what it sees of the call: the count and the array behind `outbuf`.
pub data Call : Type 0 where
  put : List ℕ → ℕ → Call
  get : Option (List ℕ) → ℕ → Call
  reset : Call

abbrev pub Reply : Type 0
Reply = ℕ × Option (List ℕ)

-- The arrays that a call passes are as long as the `len` that it passes.
abbrev pub IsProper : Call → Type 0
IsProper (put bytes len) = len ≤ length bytes
IsProper (get outbuf len) = HasRoom outbuf len
IsProper reset = Unit {0}

abbrev pub AllProper : List Call → Type 0
AllProper [] = Unit {0}
AllProper (c ∷ cs) = IsProper c × AllProper cs

unfoldable pub run : Ringbuffer → List Call → List Reply
run r [] = []
run r (put bytes len ∷ cs) = let (n, r') = ringbuffer_in r bytes len in (n, none) ∷ run r' cs
run r (get outbuf len ∷ cs) = let (n, out, r') = ringbuffer_out r outbuf len in (n, out) ∷ run r' cs
run r (reset ∷ cs) = (0, none) ∷ run (ringbuffer_reset r) cs

-- The queue: at most `size` bytes, oldest first.
abbrev pub filled : List ℕ → Option (List ℕ) → ℕ → Option (List ℕ)
filled q none n = none
filled q (some before) n = some (take n q ++ drop n before)

unfoldable pub run_queue : ℕ → List ℕ → List Call → List Reply
run_queue size q [] = []
run_queue size q (put bytes len ∷ cs) =
    let n : ℕ = min len (size - length q) in (n, none) ∷ run_queue size (q ++ take n bytes) cs
run_queue size q (get outbuf len ∷ cs) =
    let n : ℕ = min len (length q) in (n, filled q outbuf n) ∷ run_queue size (drop n q) cs
run_queue size q (reset ∷ cs) = (0, none) ∷ run_queue size [] cs

Filled-filled :
    (r : Ringbuffer) (outbuf : Option (List ℕ)) (n : ℕ) (out : Option (List ℕ))
    → Filled r outbuf n out
    → out ≡ filled (contents r) outbuf n
Filled-filled r none n out h = h
Filled-filled r (some before) n out h = h

reset-contents :
    {r : Ringbuffer}
    → IsValid r
    → (contents (ringbuffer_reset r) ≡ []) × IsValid (ringbuffer_reset r)
unfolding ringbuffer_reset
reset-contents v = (refl, ground arith)

size-reset : (r : Ringbuffer) → (ringbuffer_reset r).size ≡ r.size
unfolding ringbuffer_reset
size-reset r = refl

-- Whatever proper calls of `ringbuffer_in`, `ringbuffer_out` and `ringbuffer_reset` a client makes
-- on a valid buffer, in any order, it gets the counts and bytes of a queue that is bounded by the
-- size and starts as the contents.
pub run_refines :
    (cs : List Call) {r : Ringbuffer}
    → IsValid r
    → AllProper cs
    → run r cs ≡ run_queue r.size (contents r) cs
unfolding run run_queue
run_refines [] v p = refl
run_refines (put bytes len ∷ cs) {r} v p =
    let (count, now, v', same) = in_refines bytes len v p.0 in
    let rest = run_refines cs v' p.1 in
    let l = length-tabulate (byte_at r) r.data_len in rw (rest, now, same, l, count)
run_refines (get outbuf len ∷ cs) {r} v p =
    let (count, out, now, v', same) = out_refines outbuf len v p.0 in
    let rest = run_refines cs v' p.1 in
    let l = length-tabulate (byte_at r) r.data_len in
    rw (rest, now, same, l, Filled-filled r outbuf _ _ out, count)
run_refines (reset ∷ cs) {r} v p =
    let (now, v') = reset-contents v in rw (run_refines cs v' p.1, now, size-reset r)
