-- ===== src/Ringbuffer.antt =====
-- The byte FIFO of src/common/ringbuffer.c and its struct in include/common/ringbuffer.h.
-- A function that updates `*fifo` returns the new struct; `memcpy` into an array is `write_at`,
-- which drops what falls outside the array: `Ringbuffer.Valid` shows that nothing does.
pub mod Valid
pub mod Refine
pub mod Run
mod Tests
use csi_hal.Prelude.{
  ℕ, ◌-◌, ◌%◌, Option, none, some, Bool, List, arith, add_u32, sub_u32, ltb, leb, ◌==◌,
  if◌then◌else◌, take, drop, write_at,
}

-- `ringbuffer_t`. Bytes are only moved, so a byte is any number.
pub record Ringbuffer : Type 0 where
  pub buffer : List ℕ
  pub size : ℕ
  pub write : ℕ
  pub read : ℕ
  pub data_len : ℕ

pub ringbuffer_reset : Ringbuffer → Ringbuffer
ringbuffer_reset fifo = record fifo { write = 0; read = 0; data_len = 0 }

abbrev pub ringbuffer_size : Ringbuffer → ℕ
ringbuffer_size fifo = fifo.size

abbrev pub ringbuffer_len : Ringbuffer → ℕ
ringbuffer_len fifo = fifo.data_len

pub ringbuffer_avail : Ringbuffer → ℕ
ringbuffer_avail fifo = sub_u32 (ringbuffer_size fifo) (ringbuffer_len fifo)

pub ringbuffer_is_empty : Ringbuffer → Bool
ringbuffer_is_empty fifo = ringbuffer_len fifo == 0

pub ringbuffer_is_full : Ringbuffer → Bool
unfolding ringbuffer_avail
ringbuffer_is_full fifo = ringbuffer_avail fifo == 0

-- The `writelen` bytes of `datptr` go to `write`, cut at the end of the buffer where they reach it.
pub copy_in : Ringbuffer → List ℕ → ℕ → List ℕ
copy_in fifo datptr writelen =
    let tmplen = sub_u32 fifo.size fifo.write in
    if ltb fifo.write fifo.read
    then write_at fifo.buffer fifo.write (take writelen datptr)
    else if leb writelen tmplen
    then write_at fifo.buffer fifo.write (take writelen datptr)
    else write_at (write_at fifo.buffer fifo.write (take tmplen datptr)) 0
        (take (sub_u32 writelen tmplen) (drop tmplen datptr))

-- Returns `writelen` and the struct.
pub ringbuffer_in : Ringbuffer → List ℕ → ℕ → ℕ × Ringbuffer
unfolding ringbuffer_is_full
ringbuffer_in fifo datptr len =
    let tmplen = sub_u32 fifo.size fifo.data_len in
    let writelen : ℕ = if ltb len tmplen then len else tmplen in
    if ringbuffer_is_full fifo then (0, fifo) else (
      writelen,
      record fifo {
        buffer = copy_in fifo datptr writelen;
        write = add_u32 fifo.write writelen % fifo.size;
        data_len = add_u32 fifo.data_len writelen;
      },
    )

-- `readlen` bytes from `read` on go to the array `outbuf`, cut at the end of the buffer.
pub copy_out : Ringbuffer → List ℕ → ℕ → List ℕ
copy_out fifo outbuf readlen =
    let tmplen = sub_u32 fifo.size fifo.read in
    if leb readlen tmplen
    then write_at outbuf 0 (take readlen (drop fifo.read fifo.buffer))
    else write_at (write_at outbuf 0 (take tmplen (drop fifo.read fifo.buffer))) tmplen
        (take (sub_u32 readlen tmplen) fifo.buffer)

-- `outbuf` is `none` for a NULL pointer. Returns `readlen`, the array `outbuf` and the struct.
pub ringbuffer_out : Ringbuffer → Option (List ℕ) → ℕ → ℕ × Option (List ℕ) × Ringbuffer
unfolding ringbuffer_is_empty
ringbuffer_out fifo outbuf len =
    let readlen : ℕ = if ltb fifo.data_len len then fifo.data_len else len in
    if ringbuffer_is_empty fifo then (0, outbuf, fifo) else (
      readlen,
      (elim outbuf [ none ↦ none | some out ↦ some (copy_out fifo out readlen) ]),
      record fifo {
        read = add_u32 fifo.read readlen % fifo.size;
        data_len = sub_u32 fifo.data_len readlen;
      },
    )
