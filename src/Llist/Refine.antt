-- ===== src/Llist/Refine.antt =====
-- src/common/llist.c implements a sequence.
use mathlib.Core.Path.{ap₂}
use mathlib.Core.List.{map-append}
use csi_hal.Prelude.{
  ℕ, pos, ◌≡◌, inl, inr, refl, ap, true, false, ◌||◌, List, [], ◌∷◌, ◌++◌, map, arith, ◌==◌,
  Bool-cases,
}
use csi_hal.Llist.{
  Memory, llist_forward, llist_backward, llist_create, new_node, link, llist_insert,
}
use csi_hal.Llist.Chain.{
  has, has-append, append-Distinct, Distinct, Chain, next-mem, prev-mem, Chain-join, Chain-retail,
  Chain-rehead, Chain-live, has-apart,
}
use csi_hal.Llist.Linking.{link-next, link-prev}
use csi_hal.Llist.Sequence.{insert_by}

-- The list at `me` is a ring through the live and different nodes `nodes`, which hold the items `s`.
pub record IsList {A : Type 0} (m : Memory A) (me : ℕ) (s : List A) : Type 0 where
  pub nodes : List ℕ
  pub ring : Chain m me nodes me
  pub distinct : Distinct (me ∷ nodes)
  pub live_head : m.live me ≡ true
  pub not_null : has 0 (me ∷ nodes) ≡ false
  pub holds : map m.item nodes ≡ s

module _ {A : Type 0} where
  pub create-IsList : (me : ℕ) (m : Memory A) → (me == 0) ≡ false → IsList (llist_create me m) me []
  unfolding llist_create
  create-IsList me m h = record {
    nodes = [];
    ring = (ground arith, ground arith);
    distinct = (refl, tt);
    live_head = ground arith;
    not_null = ground arith;
    holds = refl;
  }

  pub map-frame :
      (f g : ℕ → A) (xs : List ℕ) → ((p : ℕ) → has p xs ≡ true → g p ≡ f p) → map g xs ≡ map f xs
  map-frame f g [] same = refl
  map-frame f g (x ∷ xs) same =
      let here : g x ≡ f x = same x (ground arith) in
      rw (here, map-frame f g xs (λ p h. same p (ground arith)))

  -- A free place is none of the list's.
  fresh :
      {m : Memory A} {me : ℕ} {s : List A} (node : ℕ)
      → (v : IsList m me s) → m.live node ≡ false
      → (has node v.nodes ≡ false) × ((node == me) ≡ false)
  fresh {m} {me} node v free = (
    (elim (Bool-cases (has node v.nodes)) [
      | inl there ↦ let live = Chain-live m me v.nodes me node v.ring there in cc
      | inr away ↦ away
    ]),
    ground (arith, v.live_head),
  )

  module _ {m : Memory A} {me : ℕ} {s : List A} (node : ℕ) (v : A) (l : IsList m me s)
      (free : m.live node ≡ false) (apart : (node == 0) ≡ false) where
    abbrev pub forward : Memory A
    forward = link node (new_node node v me (m.next me) m)

    forward-Chain : Chain forward me (node ∷ l.nodes) me
    forward-Chain =
        let (out, other) = fresh node l free in
        let nx = link-next m node v me (m.next me) other in
        let pv = link-prev m node v me (m.next me) other in
        let next_apart =
          has-apart (me ∷ l.nodes) node (m.next me) (ground (arith, out, other))
            (next-mem m me l.nodes me l.ring) in
        (
          ground (arith, nx me),
          ground (arith, pv node, next_apart),
          ground arith,
          Chain-rehead m forward me node l.nodes me l.ring l.distinct
              (ground (arith, nx node, other)) (ground (arith, pv (m.next me)))
              (λ p h. ground (arith, nx p, out, l.distinct.0))
              (λ p h d. ground (arith, pv p, out, other)) (λ p h. ground (arith, out)),
        )

    abbrev pub backward : Memory A
    backward = link node (new_node node v (m.prev me) me m)

    backward-Chain : Chain backward me (l.nodes ++ node ∷ []) me
    backward-Chain =
        let (out, other) = fresh node l free in
        let prev_apart =
          has-apart (me ∷ l.nodes) node (m.prev me) (ground (arith, out, other))
            (prev-mem m me l.nodes me l.ring) in
        let nx = link-next m node v (m.prev me) me prev_apart in
        let pv = link-prev m node v (m.prev me) me prev_apart in
        Chain-join backward me l.nodes node [] me
          (Chain-retail m backward me l.nodes me node l.ring l.distinct
            (λ p h. ground (arith, nx p, out, other))
            (λ p h. ground (arith, pv p, out, l.distinct.0)) (ground (arith, pv node, other))
            (λ p h. ground (arith, out)))
          (ground arith) (ground (arith, nx node, prev_apart), ground (arith, pv me))

    forward-IsList : IsList forward me (v ∷ s)
    forward-IsList =
        let (out, other) = fresh node l free in
        record {
          nodes = node ∷ l.nodes;
          ring = forward-Chain;
          distinct = (ground (arith, other, l.distinct.0), (out, l.distinct.1));
          live_head = ground (arith, l.live_head);
          not_null = ground (arith, l.not_null, apart);
          holds = rw (← l.holds) (
              ap₂ ◌∷◌ (ground arith)
                (map-frame m.item forward.item l.nodes (λ p h. ground (arith, out))));
        }

    backward-IsList : IsList backward me (s ++ v ∷ [])
    backward-IsList =
        let (out, other) = fresh node l free in
        record {
          nodes = l.nodes ++ node ∷ [];
          ring = backward-Chain;
          distinct =
              append-Distinct (me ∷ l.nodes) (node ∷ []) l.distinct (refl, tt)
                (λ p h. ground (arith, out, other, has-apart (me ∷ l.nodes) node p));
          live_head = ground (arith, l.live_head);
          not_null = ground (arith, l.not_null, apart, has-append 0 l.nodes (node ∷ []));
          holds =
              rw (← l.holds, map-append)
                (ap₂ ◌++◌ (map-frame m.item backward.item l.nodes (λ p h. ground (arith, out)))
                  (ap (λ z. z ∷ []) (ground arith)));
        }

    -- `llist_insert` with memory and a mode that is known returns 0 and puts the item at its end of
    -- the list, first for LLIST_FORWARD and last for LLIST_BACKWARD.
    pub llist_insert-insert_by :
        (mode : ℕ)
        → (mode == llist_forward) || (mode == llist_backward) ≡ true
        → ((llist_insert me node v mode m).0 ≡ pos 0)
          × IsList (llist_insert me node v mode m).1 me (insert_by mode v s)
    unfolding llist_insert
    llist_insert-insert_by mode known = elim (Bool-cases (mode == llist_forward)) [
      | inl first ↦ (rw (apart, first) refl, rw (apart, first) forward-IsList)
      | inr other ↦
          let last : (mode == llist_backward) ≡ true = ground arith in
          (rw (apart, other, last) refl, rw (apart, other, last) backward-IsList)
    ]
