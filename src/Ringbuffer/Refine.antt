-- ===== src/Ringbuffer/Refine.antt =====
-- A valid buffer is the queue of the bytes that it holds, oldest first: what `ringbuffer_in` appends
-- and what `ringbuffer_out` copies and removes, across the end of the array too.
use csi_hal.Prelude.{
  ℕ, ◌+◌, ◌-◌, ◌≤◌, ◌<◌, ◌≡◌, ◌∙◌, ap, refl, sym, List, ◌++◌, Option, none, some, arith, min,
  sub_u32, sub_u32-eq, ltb, leb, ◌&&◌, if◌then◌else◌, take, drop, length, get_or, write_at,
  tabulate, wrap, get_or-copy, length-write_at, tabulate_ext, tabulate-append, take-drop,
  take-tabulate, drop-tabulate, length-tabulate, length-append, length-drop, list_ext,
  get_or-append, get_or-tabulate, get_or-drop,
}
use csi_hal.Ringbuffer.{Ringbuffer, copy_in, copy_out, ringbuffer_in, ringbuffer_out}
use csi_hal.Ringbuffer.Valid.{
  IsValid, put, got, write_in, in-put, put-IsValid, out-got, got-IsValid,
}

-- The byte `k` places behind `read`.
abbrev pub byte_at : Ringbuffer → ℕ → ℕ
byte_at r k = get_or r.buffer (wrap r.size (r.read + k)) 0

abbrev pub contents : Ringbuffer → List ℕ
contents r = tabulate (byte_at r) r.data_len

module _ {r : Ringbuffer} (v : IsValid r) where
  -- Every place of the array after the copy.
  get_or-copy_in :
      (bytes : List ℕ) (n j : ℕ)
      → n ≤ r.size - r.data_len
      → n ≤ length bytes
      → j < r.size
      → get_or (copy_in r bytes n) j 0 ≡ (
          if leb r.write j && ltb j (r.write + n)
          then get_or bytes (j - r.write) 0
          else if ltb (j + r.size) (r.write + n)
          then get_or bytes (j + r.size - r.write) 0
          else get_or r.buffer j 0)
  unfolding copy_in
  get_or-copy_in bytes n j h k b =
      let t = r.size - r.write in
      let first = write_at r.buffer r.write (take t bytes) in
      ground (
        arith,
        write_in v,
        sub_u32-eq r.size r.write,
        sub_u32-eq n t,
        get_or-copy r.buffer bytes r.write 0 n j 0,
        get_or-copy r.buffer bytes r.write 0 t j 0,
        get_or-copy first bytes 0 t (n - t) j 0,
        length-write_at r.buffer r.write (take t bytes),
      )

  -- The bytes that were there stay, and the new ones stand behind them.
  byte_at-put_old :
      (bytes : List ℕ) (n k : ℕ)
      → n ≤ r.size - r.data_len
      → n ≤ length bytes
      → k < r.data_len
      → byte_at (put r bytes n) k ≡ byte_at r k
  byte_at-put_old bytes n k h b kl =
      let j : ℕ = wrap r.size (r.read + k) in ground (arith, write_in v, get_or-copy_in bytes n j)

  byte_at-put_new :
      (bytes : List ℕ) (n k : ℕ)
      → n ≤ r.size - r.data_len
      → n ≤ length bytes
      → k < n
      → byte_at (put r bytes n) (r.data_len + k) ≡ get_or bytes (0 + k) 0
  byte_at-put_new bytes n k h b kl =
      let j : ℕ = wrap r.size (r.read + (r.data_len + k)) in
      ground (arith, write_in v, get_or-copy_in bytes n j)

  contents-put :
      (bytes : List ℕ) (n : ℕ)
      → n ≤ r.size - r.data_len
      → n ≤ length bytes
      → contents (put r bytes n) ≡ contents r ++ take n bytes
  contents-put bytes n h b =
      tabulate-append (byte_at (put r bytes n)) r.data_len n (r.data_len + n) refl
      ∙ ap (λ l. l ++ tabulate (λ k. byte_at (put r bytes n) (r.data_len + k)) n)
          (tabulate_ext (byte_at (put r bytes n)) (byte_at r) r.data_len
            (λ k kl. byte_at-put_old bytes n k h b kl))
      ∙ ap (λ l. contents r ++ l)
          (tabulate_ext (λ k. byte_at (put r bytes n) (r.data_len + k))
              (λ k. get_or bytes (0 + k) 0) n (λ k kl. byte_at-put_new bytes n k h b kl)
            ∙ sym (take-drop bytes 0 n 0 (omega arith)))

  contents-got : (n : ℕ) → n ≤ r.data_len → contents (got r n) ≡ drop n (contents r)
  contents-got n h =
      tabulate_ext (byte_at (got r n)) (λ k. byte_at r (n + k)) (r.data_len - n)
        (λ k kl. ap (λ j. get_or r.buffer j 0) (ground arith))
      ∙ sym (drop-tabulate (byte_at r) n (r.data_len - n) r.data_len (omega arith))

  -- Every place of `outbuf` after the copy.
  get_or-copy_out :
      (out : List ℕ) (n j : ℕ)
      → n ≤ r.data_len
      → n ≤ length out
      → get_or (copy_out r out n) j 0 ≡ (if ltb j n then byte_at r j else get_or out j 0)
  unfolding copy_out
  get_or-copy_out out n j h b =
      let t = r.size - r.read in
      let first = write_at out 0 (take t (drop r.read r.buffer)) in
      ground (
        arith,
        sub_u32-eq r.size r.read,
        sub_u32-eq n t,
        get_or-copy out r.buffer 0 r.read n j 0,
        get_or-copy out r.buffer 0 r.read t j 0,
        get_or-copy first r.buffer t 0 (n - t) j 0,
        length-write_at out 0 (take t (drop r.read r.buffer)),
      )

  length-copy_out : (out : List ℕ) (n : ℕ) → length (copy_out r out n) ≡ length out
  unfolding copy_out
  length-copy_out out n =
      let t = sub_u32 r.size r.read in
      let first = write_at out 0 (take t (drop r.read r.buffer)) in
      ground (
        arith,
        length-write_at out 0 (take n (drop r.read r.buffer)),
        length-write_at out 0 (take t (drop r.read r.buffer)),
        length-write_at first t (take (sub_u32 n t) r.buffer),
      )

  copy_out-contents :
      (out : List ℕ) (n : ℕ)
      → n ≤ r.data_len
      → n ≤ length out
      → copy_out r out n ≡ take n (contents r) ++ drop n out
  copy_out-contents out n h b = rw (take-tabulate (byte_at r) n r.data_len h) (
      list_ext (copy_out r out n) (tabulate (byte_at r) n ++ drop n out) 0
        (omega (
          arith,
          length-copy_out out n,
          length-append (tabulate (byte_at r) n) (drop n out),
          length-tabulate (byte_at r) n,
          length-drop n out,
        ))
        λ k kl. ground (
          arith,
          get_or-copy_out out n k,
          get_or-append (tabulate (byte_at r) n) (drop n out) k 0,
          length-tabulate (byte_at r) n,
          get_or-tabulate (byte_at r) n k 0,
          get_or-drop n (k - n) out 0,
        ))

-- `ringbuffer_in` on a valid buffer, given an array of at least `len` bytes: it returns how many of
-- them fit, appends exactly those to the contents, and keeps the buffer valid at its size.
pub in_refines :
    {r : Ringbuffer} (bytes : List ℕ) (len : ℕ)
    → IsValid r
    → len ≤ length bytes
    → let (n, r') = ringbuffer_in r bytes len in
      (n ≡ min len (r.size - r.data_len))
      × (contents r' ≡ contents r ++ take n bytes)
      × IsValid r'
      × (r'.size ≡ r.size)
in_refines {r} bytes len v h =
    let n : ℕ = min len (r.size - r.data_len) in
    rw (in-put v bytes len) (
      refl,
      contents-put v bytes n (omega arith) (omega arith),
      put-IsValid v bytes n (omega arith),
      refl,
    )

-- The array behind `outbuf` after its first `n` places are the oldest bytes of the contents.
abbrev pub Filled : Ringbuffer → Option (List ℕ) → ℕ → Option (List ℕ) → Type 0
Filled r none n out = out ≡ none
Filled r (some before) n out = out ≡ some (take n (contents r) ++ drop n before)

-- `outbuf` is NULL or has room for `len` bytes.
abbrev pub HasRoom : Option (List ℕ) → ℕ → Type 0
HasRoom none len = Unit {0}
HasRoom (some before) len = len ≤ length before

out-Filled :
    {r : Ringbuffer} (outbuf : Option (List ℕ)) (len : ℕ)
    → IsValid r
    → HasRoom outbuf len
    → Filled r outbuf (min len r.data_len) (ringbuffer_out r outbuf len).1
unfolding ringbuffer_out
out-Filled none len v room = ground arith
out-Filled {r} (some before) len v room =
    ground (arith, copy_out-contents v before (min len r.data_len))

-- `ringbuffer_out` on a valid buffer, with `outbuf` NULL or of at least `len` bytes: it returns the
-- smaller of `len` and the bytes stored, writes the oldest bytes in order over the front of `outbuf`
-- and nothing behind them, removes just these from the contents, and keeps the buffer valid at its
-- size.
pub out_refines :
    {r : Ringbuffer} (outbuf : Option (List ℕ)) (len : ℕ)
    → IsValid r
    → HasRoom outbuf len
    → let (n, out, r') = ringbuffer_out r outbuf len in
      (n ≡ min len r.data_len)
      × Filled r outbuf n out
      × (contents r' ≡ drop n (contents r))
      × IsValid r'
      × (r'.size ≡ r.size)
out_refines {r} outbuf len v room =
    let n : ℕ = min len r.data_len in
    let (count, rest) = out-got v outbuf len in
    rw (count, rest)
      (
        refl,
        out-Filled outbuf len v room,
        contents-got v n (omega arith),
        got-IsValid v n (omega arith),
        refl,
      )
