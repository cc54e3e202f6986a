-- ===== src/Llist/Found.antt =====
-- The search and the removals of src/common/llist.c on the sequence of items.
use mathlib.Core.Path.{subst, ap₂}
use mathlib.Core.List.{map-append}
use csi_hal.Prelude.{
  ℕ, ◌<◌, ℤ, pos, minus_one, ◌≡◌, ◌⊎◌, inl, inr, refl, ap, sym, Bool, false, Option, none, some,
  List, ◌∷◌, ◌++◌, map, arith, if◌then◌else◌, ◌==◌, length, length-map, Option-cases,
}
use csi_hal.Llist.{
  Memory, update, find_node, llist_find, unlink, llist_delete, llist_fetch, llist_travel,
  llist_destroy,
}
use csi_hal.Llist.Chain.{
  Chain-frame, has, has-append, Distinct, Chain, Distinct-append, append-Distinct,
}
use csi_hal.Llist.Search.{find_from-Finds, travel_from-items, destroy_from-freed}
use csi_hal.Llist.Sequence.{find_first, delete_first, update_first}
use csi_hal.Llist.Refine.{IsList, map-frame}
use csi_hal.Llist.Splits.{Splits, Finds-Splits}
use csi_hal.Llist.Unlinking.{unlink-Chain}

module _ {A : Type 0} where
  module _ {m : Memory A} {me : ℕ} {s : List A} (l : IsList m me s) where
    few : (fuel : ℕ) → length s < fuel → length l.nodes < fuel
    few fuel h = let e = ap length l.holds in omega (arith, length-map m.item l.nodes)

    search :
        (matches : A → Bool) (fuel : ℕ)
        → length s < fuel
        → (cur : ℕ) × (find_node matches fuel me m ≡ some cur) × Splits matches m me l.nodes cur
    unfolding find_node
    search matches fuel h =
        let (cur, found, finds) =
          find_from-Finds matches fuel me me l.nodes m l.ring l.distinct.0 (few fuel h) in
        (cur, found, Finds-Splits matches m me cur l.nodes finds)

    -- The ring without one of its nodes.
    unlink-IsList :
        (cur : ℕ) (before after : List ℕ)
        → l.nodes ≡ before ++ cur ∷ after
        → IsList (unlink cur m) me (map m.item (before ++ after))
    unlink-IsList cur before after e =
        let ring = subst (λ z. Chain m me z me) e l.ring in
        let distinct = subst (λ z. Distinct (me ∷ z)) e l.distinct in
        let (first, second, away) = Distinct-append (me ∷ before) (cur ∷ after) distinct in
        let null = subst (λ z. has 0 (me ∷ z) ≡ false) e l.not_null in
        record {
          nodes = before ++ after;
          ring = unlink-Chain m me cur before after ring distinct;
          distinct =
              append-Distinct (me ∷ before) after first second.1 (λ p h. ground (arith, away p h));
          live_head = ground (arith, away me, l.live_head);
          not_null =
              ground (arith, null, has-append 0 before (cur ∷ after), has-append 0 before after);
          holds = refl;
        }

    -- A node of the list is neither its head nor NULL.
    apart_of :
        (cur : ℕ) (before after : List ℕ)
        → l.nodes ≡ before ++ cur ∷ after
        → ((cur == me) ≡ false) × ((cur == 0) ≡ false)
    apart_of cur before after e =
        let null = subst (λ z. has 0 (me ∷ z) ≡ false) e l.not_null in
        let out = subst (λ z. has me z ≡ false) e l.distinct.0 in
        (
          ground (arith, out, has-append me before (cur ∷ after)),
          ground (arith, null, has-append 0 before (cur ∷ after)),
        )

    -- The item of one node of the list gets a new value, as a client writes it through the pointer.
    amend-IsList :
        (cur : ℕ) (before after : List ℕ) (w : A)
        → l.nodes ≡ before ++ cur ∷ after
        → IsList
            (record m { item = update m.item cur w })
            me
            (map m.item before ++ w ∷ map m.item after)
    amend-IsList cur before after w e =
        let distinct = subst Distinct e l.distinct.1 in
        let (first, second, away) = Distinct-append before (cur ∷ after) distinct in
        let m' : Memory A = record m { item = update m.item cur w } in
        let kept : map m'.item l.nodes ≡ map m.item before ++ w ∷ map m.item after =
          rw (e, map-append)
            (ap₂ ◌++◌ (map-frame m.item m'.item before (λ p h. ground (arith, away p h))) (
              ap₂ ◌∷◌ (ground arith)
                (map-frame m.item m'.item after (λ p h. ground (arith, second.0))))) in
        record {
          nodes = l.nodes;
          ring = Chain-frame m m' me l.nodes me l.ring (λ p h. refl) (λ p h. refl) (λ p h. refl);
          distinct = l.distinct;
          live_head = l.live_head;
          not_null = l.not_null;
          holds = kept;
        }

    -- `llist_find` gives NULL where no item matches, or the node of the first that does, through
    -- which a client can change that item.
    pub llist_find-update_first :
        (matches : A → Bool) (fuel : ℕ)
        → length s < fuel
        → ((llist_find matches fuel me m ≡ some 0) × (find_first matches s ≡ none))
          ⊎ ((p : ℕ) × (llist_find matches fuel me m ≡ some p)
              × ((p == 0) ≡ false)
              × (find_first matches s ≡ some (m.item p))
              × ((w : A)
                  → IsList (record m { item = update m.item p w }) me (update_first matches w s)))
    unfolding llist_find
    llist_find-update_first matches fuel h =
        let (cur, found, split) = search matches fuel h in
        elim split [
          | inl (e, none_there, kept) ↦ inl (ground (arith, found, e), rw l.holds at none_there)
          | inr (before, after, e, first, gone, changed) ↦ inr (
            cur,
            ground (arith, found, apart_of cur before after e),
            (apart_of cur before after e).1,
            rw l.holds at first,
            λ w.
                subst (λ z. IsList (record m { item = update m.item cur w }) me z)
                  (rw l.holds at (sym (changed w))) (amend-IsList cur before after w e),
          )
        ]

    -- Taking out the first item that matches: the item and 0 where there is one, -1 where there is
    -- none; the list keeps the others in order.
    pub llist_fetch-delete_first :
        (matches : A → Bool) (fuel : ℕ)
        → length s < fuel
        → (r : ℤ × Option A × Memory A) × (llist_fetch matches fuel me m ≡ some r)
          × (r.1 ≡ find_first matches s)
          × (r.0 ≡ elim r.1 [ none ↦ minus_one | some v ↦ pos 0 ])
          × IsList r.2 me (delete_first matches s)
    unfolding llist_fetch
    llist_fetch-delete_first matches fuel h =
        let (cur, found, split) = search matches fuel h in
        elim split [
          | inl (e, none_there, kept) ↦ (
            (minus_one, none, m),
            ground (arith, found, e),
            rw l.holds at (sym none_there),
            refl,
            subst (λ z. IsList m me z) (sym (rw l.holds at kept)) l,
          )
          | inr (before, after, e, first, gone, changed) ↦ (
            (pos 0, some (m.item cur), unlink cur m),
            ground (arith, found, apart_of cur before after e),
            rw l.holds at (sym first),
            refl,
            subst (λ z. IsList (unlink cur m) me z) (rw l.holds at (sym gone))
                (unlink-IsList cur before after e),
          )
        ]

    delete-fetch :
        (matches : A → Bool) (fuel : ℕ) (r : ℤ × Option A × Memory A)
        → llist_fetch matches fuel me m ≡ some r
        → llist_delete matches fuel me m ≡ some (r.0, r.2)
    unfolding llist_fetch llist_delete
    delete-fetch matches fuel r e = elim (Option-cases (find_node matches fuel me m)) [
      | inl out ↦ ground (arith, out)
      | inr (node, found) ↦ ground (arith, found)
    ]

    -- The removal without the item.
    pub llist_delete-delete_first :
        (matches : A → Bool) (fuel : ℕ)
        → length s < fuel
        → (r : ℤ × Memory A) × (llist_delete matches fuel me m ≡ some r)
          × (r.0 ≡ elim (find_first matches s) [ none ↦ minus_one | some v ↦ pos 0 ])
          × IsList r.1 me (delete_first matches s)
    llist_delete-delete_first matches fuel h =
        let ((code, item, m'), done, first, e, list) = llist_fetch-delete_first matches fuel h in
        ((code, m'), delete-fetch matches fuel (code, item, m') done, rw (← first) e, list)

    -- The visit of all items, in order.
    pub llist_travel-items : (fuel : ℕ) → length s < fuel → llist_travel fuel me m ≡ some s
    unfolding llist_travel
    llist_travel-items fuel h =
        rw l.holds at (travel_from-items fuel me me l.nodes m l.ring l.distinct.0 (few fuel h))

    -- The list with its head is freed, and no other node.
    pub llist_destroy-freed :
        (fuel : ℕ)
        → length s < fuel
        → (m' : Memory A) × (llist_destroy fuel me m ≡ some m')
          × ((p : ℕ) → m'.live p ≡ (if has p (me ∷ l.nodes) then false else m.live p))
    unfolding llist_destroy
    llist_destroy-freed fuel h =
        let (m', done, gone) =
          destroy_from-freed fuel me me l.nodes m l.ring l.distinct (few fuel h) in
        (
          record m' { live = update m'.live me false },
          ground (arith, done),
          λ p. ground (arith, gone p),
        )
