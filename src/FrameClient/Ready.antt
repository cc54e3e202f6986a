-- ===== src/FrameClient/Ready.antt =====
-- The ready buffers of a channel, under the search for one and under its release.
use csi_hal.Prelude.{
  ℕ, zero, suc, ◌≡◌, ◌≢◌, refl, ap, none, some, List, [], ◌∷◌, inl, inr, arith, if◌then◌else◌, ◌==◌,
  length, Bool-cases,
}
use csi_hal.Simulator.Frames.{Slot, Channel, frame_ready, take_ready, release, release_all, all_fit}

-- The buffers of the ready frames among the first `n` places, in order
abbrev pub ready_bufs : ℕ → List Slot → List ℕ
ready_bufs zero slots = []
ready_bufs (suc n) [] = []
ready_bufs (suc n) (s ∷ slots) =
    if s.frame_status == frame_ready then s.frame_buf ∷ ready_bufs n slots else ready_bufs n slots

abbrev pub without : ℕ → List ℕ → List ℕ
without b [] = []
without b (x ∷ xs) = if b == x then without b xs else x ∷ without b xs

abbrev pub Absent : ℕ → List ℕ → Type 0
Absent b [] = Unit
Absent b (x ∷ xs) = (b ≢ x) × Absent b xs

abbrev pub AreDistinct : List ℕ → Type 0
AreDistinct [] = Unit
AreDistinct (b ∷ bs) = Absent b bs × AreDistinct bs

pub without-Absent : (b : ℕ) (bs : List ℕ) → Absent b bs → without b bs ≡ bs
without-Absent b [] a = refl
without-Absent b (x ∷ bs) (ne, a) = ground (arith, without-Absent b bs a)

pub without_self : (b : ℕ) (bs : List ℕ) → Absent b bs → without b (b ∷ bs) ≡ bs
without_self b bs a = ground (arith, without-Absent b bs a)

pub ready_bufs-release :
    (n b : ℕ) (slots : List Slot)
    → ready_bufs n (release b n slots) ≡ without b (ready_bufs n slots)
unfolding release
ready_bufs-release zero b slots = refl
ready_bufs-release (suc n) b [] = refl
ready_bufs-release (suc n) b (s ∷ slots) =
    let ih = ready_bufs-release n b slots in
    elim (Bool-cases (b == s.frame_buf)) [
      | inl same ↦ elim (Bool-cases (s.frame_status == frame_ready)) [
        | inl ready ↦ simp (same, ready) ih
        | inr busy ↦ simp (same, busy) ih
      ]
      | inr other ↦ elim (Bool-cases (s.frame_status == frame_ready)) [
        | inl ready ↦ simp (other, ready) (ap (λ l. s.frame_buf ∷ l) ih)
        | inr busy ↦ simp (other, busy) ih
      ]
    ]

pub length-release : (n b : ℕ) (slots : List Slot) → length (release b n slots) ≡ length slots
unfolding release
length-release zero b slots = refl
length-release (suc n) b [] = refl
length-release (suc n) b (s ∷ slots) = ap suc (length-release n b slots)

pub all_fit-release_all :
    (b : ℕ) (channels : List Channel) → all_fit (release_all b channels) ≡ all_fit channels
unfolding all_fit release_all
all_fit-release_all b [] = refl
all_fit-release_all b (c ∷ channels) =
    rw (length-release c.cfg.frm_cnt b c.slots, all_fit-release_all b channels) refl

pub take_ready-nil :
    (n : ℕ) (slots : List Slot) → ready_bufs n slots ≡ [] → take_ready n slots ≡ none
unfolding take_ready
take_ready-nil zero slots e = refl
take_ready-nil (suc n) [] e = refl
take_ready-nil (suc n) (s ∷ slots) e = elim (Bool-cases (s.frame_status == frame_ready)) [
  | inl ready ↦ cc (simp ready at e)
  | inr busy ↦ rw (busy, take_ready) (rw (take_ready-nil n slots (simp busy at e)) refl)
]

-- The search finds the first ready buffer, and leaves all of them ready.
pub take_ready-cons :
    (n b : ℕ) (bs : List ℕ) (slots : List Slot)
    → ready_bufs n slots ≡ b ∷ bs
    → (slots' : List Slot) × (take_ready n slots ≡ some (b, slots'))
      × (ready_bufs n slots' ≡ b ∷ bs)
      × (length slots' ≡ length slots)
unfolding take_ready
take_ready-cons zero b bs slots e = cc
take_ready-cons (suc n) b bs [] e = cc
take_ready-cons (suc n) b bs (s ∷ slots) e = elim (Bool-cases (s.frame_status == frame_ready)) [
  | inl ready ↦
      let e' : s.frame_buf ∷ ready_bufs n slots ≡ b ∷ bs = simp ready at e in
      let first : s.frame_buf ≡ b = cc in
      let slots' : List Slot = record s { refcount = 0 } ∷ slots in
      (slots', simp ready (ap (λ (x : ℕ). some (x, slots')) first), simp ready e', refl)
  | inr busy ↦
      let (slots', found, same, long) = take_ready-cons n b bs slots (simp busy at e) in
      (s ∷ slots', simp (busy, found) refl, simp busy same, ap suc long)
]
