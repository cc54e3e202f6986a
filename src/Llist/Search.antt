-- ===== src/Llist/Search.antt =====
-- The loops of src/common/llist.c on a list that is there.
use csi_hal.Prelude.{
  ℕ, zero, suc, ◌<◌, ◌≡◌, inl, inr, refl, Bool, false, some, List, [], ◌∷◌, map, arith,
  if◌then◌else◌, length, Bool-cases,
}
use csi_hal.Llist.{Memory, update, find_from, travel_from, destroy_from}
use csi_hal.Llist.Chain.{has, Distinct, Chain, Chain-frame}

module _ {A : Type 0} where
  -- What the search finds: no node of the list matches, or one does and none before it.
  abbrev pub Finds : (A → Bool) → Memory A → ℕ → List ℕ → ℕ → Type 0
  Finds matches m me [] cur = cur ≡ me
  Finds matches m me (x ∷ xs) cur =
      if matches (m.item x) then cur ≡ x else Finds matches m me xs cur

  pub find_from-Finds :
      (matches : A → Bool) (fuel me a : ℕ) (xs : List ℕ) (m : Memory A)
      → Chain m a xs me
      → has me xs ≡ false
      → length xs < fuel
      → (cur : ℕ) × (find_from matches fuel me (m.next a) m ≡ some cur) × Finds matches m me xs cur
  unfolding find_from
  find_from-Finds matches zero me a xs m c out few = absurd (omega arith)
  find_from-Finds matches (suc fuel) me a [] m (n, p) out few = (me, ground arith, refl)
  find_from-Finds matches (suc fuel) me a (x ∷ xs) m (n, p, l, c) out few =
      elim (Bool-cases (matches (m.item x))) [
        | inl hit ↦ (x, ground arith, rw hit refl)
        | inr miss ↦
            let (cur, found, finds) =
              find_from-Finds matches fuel me x xs m c (ground arith) (omega arith) in
            (cur, ground (arith, found), rw miss finds)
      ]

  pub travel_from-items :
      (fuel me a : ℕ) (xs : List ℕ) (m : Memory A)
      → Chain m a xs me
      → has me xs ≡ false
      → length xs < fuel
      → travel_from fuel me (m.next a) m ≡ some (map m.item xs)
  unfolding travel_from
  travel_from-items zero me a xs m c out few = absurd (omega arith)
  travel_from-items (suc fuel) me a [] m (n, p) out few = ground arith
  travel_from-items (suc fuel) me a (x ∷ xs) m (n, p, l, c) out few =
      ground (arith, travel_from-items fuel me x xs m c)

  -- Every node of the list is freed, and nothing else changes.
  pub destroy_from-freed :
      (fuel me a : ℕ) (xs : List ℕ) (m : Memory A)
      → Chain m a xs me
      → Distinct (me ∷ xs)
      → length xs < fuel
      → (m' : Memory A) × (destroy_from fuel me (m.next a) m ≡ some m')
        × ((p : ℕ) → m'.live p ≡ (if has p xs then false else m.live p))
  unfolding destroy_from
  destroy_from-freed zero me a xs m c d few = absurd (omega arith)
  destroy_from-freed (suc fuel) me a [] m (n, p) d few = (m, ground arith, λ q. refl)
  destroy_from-freed (suc fuel) me a (x ∷ xs) m (n, p, l, c) (out, d) few =
      let freed : Memory A = record m { live = update m.live x false } in
      let rest =
        Chain-frame m freed x xs me c (λ q h. refl) (λ q h. refl) (λ q h. ground (arith, d.0)) in
      let (m', done, gone) =
        destroy_from-freed fuel me x xs freed rest (ground arith, d.1) (omega arith) in
      (m', ground (arith, done), λ q. ground (arith, gone q))
