-- ===== src/Ringbuffer/Valid.antt =====
-- The invariant of `ringbuffer_t`, and the counters that the functions report.
use csi_hal.Prelude.{
  ℕ, ◌+◌, ◌-◌, ◌^◌, ◌≤◌, ◌<◌, ◌≡◌, ◌↔◌, true, List, Option, arith, min, sub_u32, add_u32-eq,
  sub_u32-eq, take, drop, length, write_at, length-write_at, wrap, mod-wrap,
}
use csi_hal.Ringbuffer.{
  Ringbuffer, ringbuffer_reset, ringbuffer_avail, ringbuffer_is_empty, ringbuffer_is_full, copy_in,
  ringbuffer_in, ringbuffer_out,
}

-- The indices lie in the buffer, and `write` stands `data_len` places behind `read`. A size of at
-- most 2 ^ 31 keeps `write + writelen` below 2 ^ 32.
pub record IsValid (r : Ringbuffer) : Type 0 where
  pub storage : r.size ≤ length r.buffer
  pub small : r.size ≤ 2 ^ 31
  pub read_in : r.read < r.size
  pub len_in : r.data_len ≤ r.size
  pub behind : r.write ≡ wrap r.size (r.read + r.data_len)

-- `ringbuffer_reset` makes any buffer of a proper size a valid and empty one.
pub reset-IsValid :
    (r : Ringbuffer)
    → r.size ≤ length r.buffer
    → r.size ≤ 2 ^ 31
    → 0 < r.size
    → IsValid (ringbuffer_reset r) × (ringbuffer_is_empty (ringbuffer_reset r) ≡ true)
unfolding ringbuffer_reset ringbuffer_is_empty
reset-IsValid r a b c = ground arith

-- In a valid buffer the free and the used bytes make up the size, and the two tests tell exactly
-- when one of them is 0.
pub avail-add-len :
    {r : Ringbuffer}
    → IsValid r
    → (ringbuffer_avail r + r.data_len ≡ r.size)
      × ((ringbuffer_is_full r ≡ true) ↔ (r.data_len ≡ r.size))
      × ((ringbuffer_is_empty r ≡ true) ↔ (r.data_len ≡ 0))
unfolding ringbuffer_is_full ringbuffer_is_empty sub_u32
avail-add-len v =
    (ground arith, (λ h. ground arith, λ h. ground arith), (λ h. ground arith, λ h. ground arith))

length-copy_in :
    (r : Ringbuffer) (bytes : List ℕ) (n : ℕ) → length (copy_in r bytes n) ≡ length r.buffer
unfolding copy_in
length-copy_in r bytes n =
    let t = sub_u32 r.size r.write in
    let first = write_at r.buffer r.write (take t bytes) in
    ground (
      arith,
      length-write_at r.buffer r.write (take n bytes),
      length-write_at r.buffer r.write (take t bytes),
      length-write_at first 0 (take (sub_u32 n t) (drop t bytes)),
    )

copy_in-zero : (r : Ringbuffer) (bytes : List ℕ) → copy_in r bytes 0 ≡ r.buffer
unfolding copy_in
copy_in-zero r bytes = ground arith

-- `ringbuffer_in` and `ringbuffer_out` with their words and remainders computed.
abbrev pub put : Ringbuffer → List ℕ → ℕ → Ringbuffer
put r bytes n = record r {
  buffer = copy_in r bytes n;
  write = wrap r.size (r.write + n);
  data_len = r.data_len + n;
}

abbrev pub got : Ringbuffer → ℕ → Ringbuffer
got r n = record r { read = wrap r.size (r.read + n); data_len = r.data_len - n }

module _ {r : Ringbuffer} (v : IsValid r) where
  pub write_in : r.write < r.size
  write_in = ground arith

  pub in-put :
      (bytes : List ℕ) (len : ℕ)
      → let n = min len (r.size - r.data_len) in ringbuffer_in r bytes len ≡ (n, put r bytes n)
  unfolding ringbuffer_in
  in-put bytes len =
      let n : ℕ = min len (r.size - r.data_len) in
      ground (
        arith,
        write_in,
        copy_in-zero r bytes,
        sub_u32-eq r.size r.data_len,
        add_u32-eq r.write n,
        add_u32-eq r.data_len n,
        mod-wrap r.size (r.write + n),
      )

  pub put-IsValid : (bytes : List ℕ) (n : ℕ) → n ≤ r.size - r.data_len → IsValid (put r bytes n)
  put-IsValid bytes n h = ground (arith, length-copy_in r bytes n)

  -- The array that `ringbuffer_out` leaves behind `outbuf`.
  pub out-got :
      (outbuf : Option (List ℕ)) (len : ℕ)
      → let n = min len r.data_len in
        ((ringbuffer_out r outbuf len).0 ≡ n) × ((ringbuffer_out r outbuf len).2 ≡ got r n)
  unfolding ringbuffer_out
  out-got outbuf len =
      let n : ℕ = min len r.data_len in
      ground (arith, sub_u32-eq r.data_len n, add_u32-eq r.read n, mod-wrap r.size (r.read + n))

  pub got-IsValid : (n : ℕ) → n ≤ r.data_len → IsValid (got r n)
  got-IsValid n h = ground arith
