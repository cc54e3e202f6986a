-- ===== src/Llist/Unlinking.antt =====
-- Taking a node out of a ring (src/common/llist.c).
use mathlib.Core.List.{append-nil}
use mathlib.Core.Path.{subst}
use csi_hal.Prelude.{ℕ, ◌≡◌, refl, true, false, List, [], ◌∷◌, ◌++◌, arith, ◌==◌}
use csi_hal.Llist.{Memory, unlink}
use csi_hal.Llist.Chain.{
  has, Distinct, Chain, prev-mem, Chain-split, Chain-join, Chain-frame, Chain-retail, has-append,
  Distinct-append, has-apart,
}
use csi_hal.Llist.Linking.{unlink-prev}

module _ {A : Type 0} (m : Memory A) (me x : ℕ) (xs : List ℕ) where
  -- The part before the node, with a new end.
  unlink-retail :
      (ys : List ℕ)
      → Chain m me xs x
      → Distinct (me ∷ xs ++ x ∷ ys)
      → ((p : ℕ) → has p xs ≡ true → (p == m.next x) ≡ false)
      → Chain (unlink x m) me xs (m.next x)
  unlink-retail ys c d apart =
      let (first, second, away) = Distinct-append (me ∷ xs) (x ∷ ys) d in
      let before = away (m.prev x) (prev-mem m me xs x c) in
      let pv = unlink-prev m x (ground (arith, before)) in
      Chain-retail m (unlink x m) me xs x (m.next x) c first (λ p h. refl)
        (λ p h. ground (arith, pv p, apart p)) (ground (arith, pv (m.next x)))
        (λ p h. ground (arith, away p))

  pub unlink-Chain :
      (ys : List ℕ)
      → Chain m me (xs ++ x ∷ ys) me
      → Distinct (me ∷ xs ++ x ∷ ys)
      → Chain (unlink x m) me (xs ++ ys) me
  unlink-Chain [] c d =
      let (c₁, lx, (n, p)) = Chain-split m me xs x [] me c in
      let out : has me xs ≡ false = ground (arith, d.0, has-append me xs (x ∷ [])) in
      rw append-nil (
        subst (λ z. Chain (unlink x m) me xs z) n
          (unlink-retail [] c₁ d (λ q h. ground (arith, has-apart xs me q out h))))
  unlink-Chain (y ∷ ys) c d =
      let (c₁, lx, (n, p, ly, c₂)) = Chain-split m me xs x (y ∷ ys) me c in
      let (first, second, away) = Distinct-append (me ∷ xs) (x ∷ y ∷ ys) d in
      let before = away (m.prev x) (prev-mem m me xs x c₁) in
      let pv = unlink-prev m x (ground (arith, before)) in
      Chain-join (unlink x m) me xs y ys me
        (subst (λ z. Chain (unlink x m) me xs z) n
          (unlink-retail (y ∷ ys) c₁ d (λ q h. ground (arith, away q, n))))
        (ground (arith, second.0))
        (Chain-frame m (unlink x m) y ys me c₂
          (λ q h. ground (arith, has-apart (y ∷ ys) (m.prev x) q (ground (arith, before)) h))
          (λ q h. ground (arith, pv q, n, away me, has-apart ys y q second.1.0))
          (λ q h. ground (arith, has-apart ys x q (ground (arith, second.0)) h)))
