-- ===== src/Llist/Splits.antt =====
-- Where a search in a linked list ends (src/common/llist.c).
use csi_hal.Prelude.{
  ℕ, ◌≡◌, ◌⊎◌, inl, inr, refl, ap, sym, Bool, none, some, List, [], ◌∷◌, ◌++◌, map, Bool-cases,
}
use csi_hal.Llist.{Memory}
use csi_hal.Llist.Search.{Finds}
use csi_hal.Llist.Sequence.{find_first, delete_first, update_first}

module _ {A : Type 0} where
  -- What a search ends with: the head, where nothing matches, or the node of the first match.
  abbrev pub Splits : (A → Bool) → Memory A → ℕ → List ℕ → ℕ → Type 0
  Splits matches m me nodes cur =
      ((cur ≡ me)
        × (find_first matches (map m.item nodes) ≡ none)
        × (delete_first matches (map m.item nodes) ≡ map m.item nodes))
      ⊎ ((before : List ℕ) × (after : List ℕ) × (nodes ≡ before ++ cur ∷ after)
          × (find_first matches (map m.item nodes) ≡ some (m.item cur))
          × (delete_first matches (map m.item nodes) ≡ map m.item (before ++ after))
          × ((w : A)
              → update_first matches w (map m.item nodes)
                ≡ map m.item before ++ w ∷ map m.item after))

  pub Finds-Splits :
      (matches : A → Bool) (m : Memory A) (me cur : ℕ) (nodes : List ℕ)
      → Finds matches m me nodes cur
      → Splits matches m me nodes cur
  Finds-Splits matches m me cur [] h = inl (h, refl, refl)
  Finds-Splits matches m me cur (x ∷ xs) h = elim (Bool-cases (matches (m.item x))) [
    | inl hit ↦
        let e : cur ≡ x = rw hit at h in
        inr ([], xs, ap (λ z. z ∷ xs) (sym e), rw (hit, e) refl, rw hit refl, λ w. rw hit refl)
    | inr miss ↦ elim (Finds-Splits matches m me cur xs (rw miss at h)) [
      | inl (e, found, kept) ↦ inl (e, rw miss found, rw miss (ap (λ z. m.item x ∷ z) kept))
      | inr (before, after, e, found, kept, changed) ↦ inr (
        x ∷ before,
        after,
        ap (λ z. x ∷ z) e,
        rw miss found,
        rw miss (ap (λ z. m.item x ∷ z) kept),
        λ w. rw miss (ap (λ z. m.item x ∷ z) (changed w)),
      )
    ]
  ]
