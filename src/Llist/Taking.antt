-- ===== src/Llist/Taking.antt =====
-- Fetching with a test that every item passes, as the simulator does with its events
-- (src/common/llist.c).
use csi_hal.Prelude.{
  ℕ, suc, ◌≡◌, refl, true, false, none, some, List, [], ◌∷◌, map, arith, if◌then◌else◌, ◌==◌,
  is_empty,
}
use csi_hal.Llist.{Memory, find_node, find_from, llist_fetch}
use csi_hal.Llist.Chain.{Distinct, Chain}
use csi_hal.Llist.Refine.{IsList}

module _ {A : Type 0} where
  -- The search for any item at all ends at the first node, whatever fuel is left.
  find_node-first :
      {m : Memory A} {me : ℕ} {v : A} {s : List A} (l : IsList m me (v ∷ s)) (fuel : ℕ)
      → find_node (λ a. true) (suc fuel) me m ≡ some (m.next me)
  unfolding find_node find_from
  find_node-first {m} {me} {v} {s} l fuel = go l.nodes l.ring l.distinct l.holds
    where
      go :
          (nodes : List ℕ)
          → Chain m me nodes me
          → Distinct (me ∷ nodes)
          → map m.item nodes ≡ v ∷ s
          → find_node (λ a. true) (suc fuel) me m ≡ some (m.next me)
      go [] c d e = cc
      go (x ∷ xs) (n, p, live, c) (out, d) e = ground arith

  pub llist_fetch-fuel :
      {m : Memory A} {me : ℕ} {v : A} {s : List A}
      → IsList m me (v ∷ s)
      → (fuel fuel' : ℕ)
      → llist_fetch (λ a. true) (suc fuel) me m ≡ llist_fetch (λ a. true) (suc fuel') me m
  unfolding llist_fetch
  llist_fetch-fuel l fuel fuel' = ground (arith, find_node-first l fuel, find_node-first l fuel')

  pub llist_fetch-zero : (m : Memory A) (me : ℕ) → llist_fetch (λ a. true) 0 me m ≡ none
  unfolding llist_fetch find_node find_from
  llist_fetch-zero m me = refl

  -- The node behind the head: the head itself in an empty list, else another one that is there.
  pub next-node :
      {m : Memory A} {me : ℕ} (s : List A)
      → IsList m me s
      → if is_empty s
        then (m.next me == me) ≡ true
        else (((m.next me == me) ≡ false) × (m.live (m.next me) ≡ true))
  next-node {m} {me} s l = go s l.nodes l.ring l.distinct l.holds
    where
      go :
          (s : List A) (nodes : List ℕ)
          → Chain m me nodes me
          → Distinct (me ∷ nodes)
          → map m.item nodes ≡ s
          → if is_empty s
            then (m.next me == me) ≡ true
            else (((m.next me == me) ≡ false) × (m.live (m.next me) ≡ true))
      go [] [] (n, p) d e = ground arith
      go [] (x ∷ xs) c d e = cc
      go (v ∷ s) [] c d e = cc
      go (v ∷ s) (x ∷ xs) (n, p, live, c) (out, d) e = (ground arith, rw n live)
