-- ===== src/Llist/Chain.antt =====
-- Doubly linked chains of nodes in the memory of src/common/llist.c.
use csi_hal.Prelude.{
  ℕ, ◌≡◌, refl, ◌∙◌, Bool, true, false, ◌||◌, List, [], ◌∷◌, ◌++◌, arith, ◌==◌, Bool-cases, inl,
  inr,
}
use csi_hal.Llist.{Memory, update}

abbrev pub has : ℕ → List ℕ → Bool
has a [] = false
has a (x ∷ xs) = (a == x) || has a xs

-- No address comes twice.
abbrev pub Distinct : List ℕ → Type 0
Distinct [] = Unit {0}
Distinct (x ∷ xs) = (has x xs ≡ false) × Distinct xs

pub has-apart :
    (xs : List ℕ) (node p : ℕ) → has node xs ≡ false → has p xs ≡ true → (node == p) ≡ false
has-apart xs node p out h = elim (Bool-cases (node == p)) [
  | inl same ↦ let e : node ≡ p = ground arith in cc (rw e at out)
  | inr apart ↦ apart
]

pub has-append : (a : ℕ) (xs ys : List ℕ) → has a (xs ++ ys) ≡ (has a xs || has a ys)
has-append a [] ys = refl
has-append a (x ∷ xs) ys = ground (arith, has-append a xs ys)

-- The parts of a list without repetition share no address, and have none twice.
pub Distinct-append :
    (xs ys : List ℕ)
    → Distinct (xs ++ ys)
    → Distinct xs × Distinct ys × ((p : ℕ) → has p xs ≡ true → has p ys ≡ false)
Distinct-append [] ys d = (tt, d, λ p h. cc)
Distinct-append (x ∷ xs) ys (out, d) =
    let (first, second, apart) = Distinct-append xs ys d in
    (
      (ground (arith, has-append x xs ys), first),
      second,
      λ p h. elim (Bool-cases (p == x)) [
        | inl same ↦
            let e : p ≡ x = ground arith in
            let away : has x ys ≡ false = ground (arith, has-append x xs ys) in rw e away
        | inr other ↦ apart p (ground arith)
      ],
    )

pub append-Distinct :
    (xs ys : List ℕ)
    → Distinct xs
    → Distinct ys
    → ((p : ℕ) → has p xs ≡ true → has p ys ≡ false)
    → Distinct (xs ++ ys)
append-Distinct [] ys d e apart = e
append-Distinct (x ∷ xs) ys (out, d) e apart = (
  ground (arith, has-append x xs ys, apart x),
  append-Distinct xs ys d e (λ p h. apart p (ground arith)),
)

module _ {A : Type 0} where
  -- From `a` through the live nodes `xs` to `b`, both ways.
  abbrev pub Chain : Memory A → ℕ → List ℕ → ℕ → Type 0
  Chain m a [] b = (m.next a ≡ b) × (m.prev b ≡ a)
  Chain m a (x ∷ xs) b = (m.next a ≡ x) × (m.prev x ≡ a) × (m.live x ≡ true) × Chain m x xs b

  pub Chain-split :
      (m : Memory A) (a : ℕ) (xs : List ℕ) (x : ℕ) (ys : List ℕ) (b : ℕ)
      → Chain m a (xs ++ x ∷ ys) b
      → Chain m a xs x × (m.live x ≡ true) × Chain m x ys b
  Chain-split m a [] x ys b (n, p, l, c) = ((n, p), l, c)
  Chain-split m a (w ∷ xs) x ys b (n, p, l, c) =
      let (first, lx, second) = Chain-split m w xs x ys b c in ((n, p, l, first), lx, second)

  pub Chain-join :
      (m : Memory A) (a : ℕ) (xs : List ℕ) (x : ℕ) (ys : List ℕ) (b : ℕ)
      → Chain m a xs x
      → m.live x ≡ true
      → Chain m x ys b
      → Chain m a (xs ++ x ∷ ys) b
  Chain-join m a [] x ys b c lx d = (c.0, c.1, lx, d)
  Chain-join m a (w ∷ xs) x ys b (n, p, l, c) lx d = (n, p, l, Chain-join m w xs x ys b c lx d)

  -- A memory that agrees on the pointers of a chain has it too.
  pub Chain-frame :
      (m m' : Memory A) (a : ℕ) (xs : List ℕ) (b : ℕ)
      → Chain m a xs b
      → ((p : ℕ) → has p (a ∷ xs) ≡ true → m'.next p ≡ m.next p)
      → ((p : ℕ) → has p (b ∷ xs) ≡ true → m'.prev p ≡ m.prev p)
      → ((p : ℕ) → has p xs ≡ true → m'.live p ≡ m.live p)
      → Chain m' a xs b
  Chain-frame m m' a [] b (n, p) sn sp sl = (ground (arith, sn a), ground (arith, sp b))
  Chain-frame m m' a (x ∷ xs) b (n, p, l, c) sn sp sl = (
    ground (arith, sn a),
    ground (arith, sp x),
    ground (arith, sl x),
    Chain-frame m m' x xs b c (λ q h. sn q (ground arith)) (λ q h. sp q (ground arith))
        (λ q h. sl q (ground arith)),
  )

  -- The node before the end is the start or one of the chain.
  pub prev-mem :
      (m : Memory A) (a : ℕ) (xs : List ℕ) (b : ℕ) → Chain m a xs b → has (m.prev b) (a ∷ xs) ≡ true
  prev-mem m a [] b c = ground arith
  prev-mem m a (x ∷ xs) b (n, p, l, c) = ground (arith, prev-mem m x xs b c)

  pub next-mem :
      (m : Memory A) (a : ℕ) (xs : List ℕ) (b : ℕ) → Chain m a xs b → has (m.next a) (b ∷ xs) ≡ true
  next-mem m a [] b c = ground arith
  next-mem m a (x ∷ xs) b c = ground arith

  -- The end of a chain moves from `b` to `z`: the node before `b` points to `z`, and back.
  pub Chain-retail :
      (m m' : Memory A) (a : ℕ) (xs : List ℕ) (b z : ℕ)
      → Chain m a xs b
      → Distinct (a ∷ xs)
      → ((p : ℕ) → has p (a ∷ xs) ≡ true → m'.next p ≡ update m.next (m.prev b) z p)
      → ((p : ℕ) → has p xs ≡ true → m'.prev p ≡ m.prev p)
      → m'.prev z ≡ m.prev b
      → ((p : ℕ) → has p xs ≡ true → m'.live p ≡ m.live p)
      → Chain m' a xs z
  Chain-retail m m' a [] b z (n, p) d sn sp e sl = (ground (arith, sn a), e ∙ p)
  Chain-retail m m' a (x ∷ xs) b z (n, p, l, c) (out, d) sn sp e sl = (
    ground (arith, sn a, prev-mem m x xs b c),
    ground (arith, sp x),
    ground (arith, sl x),
    Chain-retail m m' x xs b z c d (λ q h. sn q (ground arith)) (λ q h. sp q (ground arith)) e
        (λ q h. sl q (ground arith)),
  )

  -- The start of a chain moves from `a` to `u`: `u` points to the node behind `a`, and back.
  pub Chain-rehead :
      (m m' : Memory A) (a u : ℕ) (xs : List ℕ) (b : ℕ)
      → Chain m a xs b
      → Distinct (b ∷ xs)
      → m'.next u ≡ m.next a
      → m'.prev (m.next a) ≡ u
      → ((p : ℕ) → has p xs ≡ true → m'.next p ≡ m.next p)
      → ((p : ℕ) → has p (b ∷ xs) ≡ true → (p == m.next a) ≡ false → m'.prev p ≡ m.prev p)
      → ((p : ℕ) → has p xs ≡ true → m'.live p ≡ m.live p)
      → Chain m' u xs b
  Chain-rehead m m' a u [] b (n, p) d e f sn sp sl = (e ∙ n, rw n at f)
  Chain-rehead m m' a u (x ∷ xs) b (n, p, l, c) (out, d) e f sn sp sl = (
    e ∙ n,
    rw n at f,
    ground (arith, sl x),
    Chain-frame m m' x xs b c (λ q h. sn q (ground arith))
        (λ q h. sp q (ground arith) (ground (arith, d.0))) (λ q h. sl q (ground arith)),
  )

  -- What a list says of any live place: a node that it has is live.
  pub Chain-live :
      (m : Memory A) (a : ℕ) (xs : List ℕ) (b p : ℕ)
      → Chain m a xs b
      → has p xs ≡ true
      → m.live p ≡ true
  Chain-live m a [] b p c h = cc
  Chain-live m a (x ∷ xs) b p (n, q, l, c) h = ground (arith, Chain-live m x xs b p c)
