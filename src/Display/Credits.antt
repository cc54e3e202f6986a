-- ===== src/Display/Credits.antt =====
-- What `get_buffer_count` and the loop around it count: the messages with a value that is not
-- negative give back buffers.
use csi_hal.Prelude.{
  ℕ, ◌+◌, ◌%◌, ◌≤◌, ℤ, pos, negsuc, Bool, true, false, ◌&&◌, ◌≡◌, refl, inl, inr, List, [], ◌∷◌,
  if◌then◌else◌, ltb, arith, add_u32, Bool-cases,
}
use csi_hal.Display.State.{Context, Desc, message, other}
use csi_hal.Display.{Poll, sign_bit, count_message, get_buffer_count, retrieve, polled}

abbrev pub credit : Desc → ℕ
credit (message (pos n)) = 1
credit (message (negsuc n)) = 0
credit other = 0

abbrev pub list_credits : List Desc → ℕ
list_credits [] = 0
list_credits (d ∷ list) = credit d + list_credits list

abbrev pub credits : List Poll → ℕ
credits [] = 0
credits (p ∷ polls) = list_credits p.list + credits polls

count_message-le :
    (e v : ℤ) (ret : ℕ) → count_message e v ret % sign_bit ≤ ret % sign_bit + credit (message v)
unfolding count_message add_u32
count_message-le e (pos n) ret = ground arith
count_message-le e (negsuc n) ret = ground arith

get_buffer_count-le :
    (e : ℤ) (list : List Desc) (ret : ℕ)
    → get_buffer_count e list ret % sign_bit ≤ ret % sign_bit + list_credits list
unfolding get_buffer_count
get_buffer_count-le e [] ret = omega arith
get_buffer_count-le e (other ∷ list) ret = omega (arith, get_buffer_count-le e list ret)
get_buffer_count-le e (message v ∷ list) ret =
    omega (arith, get_buffer_count-le e list (count_message e v ret), count_message-le e v ret)

-- The loop only adds credits that were given, and touches neither the slots nor the link.
pub record IsCredited (c c' : Context) (most : ℕ) : Type 0 where
  pub more : ℕ
  pub given : more ≤ most
  pub added : c'.available_bufs ≡ c.available_bufs + more
  pub same_slot : c'.sendid ≡ c.sendid
  pub same_link : c'.connected ≡ c.connected

-- The loop gives up at once, or the link is not there.
stopped-IsCredited :
    (c : Context) (exit : Bool) (most : ℕ) → IsCredited c (record c { exitplink = exit }) most
stopped-IsCredited c exit most = record {
  more = 0;
  given = omega arith;
  added = omega arith;
  same_slot = refl;
  same_link = refl;
}

pub retrieve-IsCredited :
    (e : ℤ) (polls : List Poll) (c : Context) → IsCredited c (retrieve e polls c) (credits polls)
unfolding retrieve
retrieve-IsCredited e [] c = stopped-IsCredited c c.exitplink 0
retrieve-IsCredited e (p ∷ polls) c =
    let count : ℕ = get_buffer_count e p.list 0 in
    elim (Bool-cases (p.received && ltb count sign_bit)) [
      | inr stops ↦ rw stops (stopped-IsCredited c true (credits (p ∷ polls)))
      | inl goes ↦ rw goes (
          let ih =
            retrieve-IsCredited e polls (record c { available_bufs = c.available_bufs + count }) in
          record {
            more = count + ih.more;
            given = ground (arith, get_buffer_count-le e p.list 0, ih.given);
            added = omega (arith, ih.added);
            same_slot = ih.same_slot;
            same_link = ih.same_link;
          })
    ]

pub polled-IsCredited :
    (e : ℤ) (polls : List Poll) (c : Context) → IsCredited c (polled e polls c) (credits polls)
unfolding polled
polled-IsCredited e polls c =
    elim c.connected
      as (λ linked. IsCredited c (if linked then retrieve e polls c else c) (credits polls)) [
        | true ↦ retrieve-IsCredited e polls c
        | false ↦ stopped-IsCredited c c.exitplink (credits polls)
      ]
