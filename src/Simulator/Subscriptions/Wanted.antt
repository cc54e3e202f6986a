-- ===== src/Simulator/Subscriptions/Wanted.antt =====
-- What the subscriptions of the simulated camera mean: a mask of wanted events for each type
-- (src/platform/simulator/csi_camera.c).
use csi_hal.Prelude.{
  ℕ, ℤ, pos, negsuc, eq_int, ◌≡◌, inl, inr, refl, ap, sym, ◌∙◌, Bool, true, false, ◌||◌, none, some,
  List, [], ◌∷◌, ◌++◌, arith, if◌then◌else◌, Bool-cases,
}
use csi_hal.Hal.{Subscription}
use csi_hal.Llist.Sequence.{find_first, delete_first, update_first}
use csi_hal.Simulator.Subscriptions.{type_is}

-- The events of a type that the list asks for.
abbrev pub wanted : ℤ → List Subscription → ℕ
wanted type [] = 0
wanted type (v ∷ s) = if eq_int v.type type then v.id else wanted type s

abbrev pub has_type : ℤ → List Subscription → Bool
has_type type [] = false
has_type type (v ∷ s) = eq_int v.type type || has_type type s

-- Each type stands in the list once at most.
abbrev pub OneEach : List Subscription → Type 0
OneEach [] = Unit {0}
OneEach (v ∷ s) = (has_type v.type s ≡ false) × OneEach s

eq_int-≡ : (a b : ℤ) → eq_int a b ≡ true → a ≡ b
eq_int-≡ (pos a) (pos b) h = ap pos (ground arith)
eq_int-≡ (negsuc a) (negsuc b) h = ap negsuc (ground arith)
eq_int-≡ (pos a) (negsuc b) h = cc
eq_int-≡ (negsuc a) (pos b) h = cc

pub eq_int_self : (a : ℤ) → eq_int a a ≡ true
eq_int_self (pos a) = ground arith
eq_int_self (negsuc a) = ground arith

-- A third number is equal to one of two different ones at most.
eq_int-apart : (a b c : ℤ) → eq_int a b ≡ false → eq_int a c ≡ true → eq_int b c ≡ false
eq_int-apart a b c h k = elim (Bool-cases (eq_int b c)) [
  | inl same ↦
      let e : a ≡ b = eq_int-≡ a c k ∙ sym (eq_int-≡ b c same) in
      let h' = rw e at h in let self = eq_int_self b in cc
  | inr other ↦ other
]

eq_int-sym : (a b : ℤ) → eq_int a b ≡ false → eq_int b a ≡ false
eq_int-sym a b h = elim (Bool-cases (eq_int b a)) [
  | inl same ↦ let e = eq_int-≡ b a same in let h' = rw e at h in let self = eq_int_self a in cc
  | inr other ↦ other
]

pub wanted-none : (type : ℤ) (s : List Subscription) → has_type type s ≡ false → wanted type s ≡ 0
wanted-none type [] h = refl
wanted-none type (v ∷ s) h = ground (arith, wanted-none type s)

wanted-away :
    (type t : ℤ) (s : List Subscription)
    → has_type type s ≡ false
    → wanted t s ≡ (if eq_int type t then 0 else wanted t s)
wanted-away type t s out = elim (Bool-cases (eq_int type t)) [
  | inl same ↦ let e = eq_int-≡ type t same in rw same (wanted-none t s (rw e at out))
  | inr other ↦ rw other refl
]

pub find_first-none :
    (type : ℤ) (s : List Subscription)
    → find_first (type_is type) s ≡ none
    → has_type type s ≡ false
find_first-none type [] h = refl
find_first-none type (v ∷ s) h = ground (arith, find_first-none type s)

pub find_first-wanted :
    (type : ℤ) (s : List Subscription) (d : Subscription)
    → find_first (type_is type) s ≡ some d
    → (d.id ≡ wanted type s) × (d.type ≡ type)
find_first-wanted type [] d h = cc
find_first-wanted type (v ∷ s) d h = elim (Bool-cases (eq_int v.type type)) [
  | inl here ↦
      let e : v ≡ d = let h' = rw here at h in cc in
      (rw (here, e) refl, rw e at (eq_int-≡ v.type type here))
  | inr other ↦ rw other (find_first-wanted type s d (rw other at h))
]

-- The list with the first entry of a type changed, and without it.
pub wanted-update :
    (type t : ℤ) (id : ℕ) (d : Subscription) (s : List Subscription)
    → find_first (type_is type) s ≡ some d
    → wanted t (update_first (type_is type) (record d { id = id }) s)
      ≡ (if eq_int type t then id else wanted t s)
wanted-update type t id d [] h = cc
wanted-update type t id d (v ∷ s) h = elim (Bool-cases (eq_int v.type type)) [
  | inl here ↦
      let e : v ≡ d = let h' = rw here at h in cc in
      let same = eq_int-≡ v.type type here in
      let of_d : d.type ≡ type = rw e at same in rw (here, of_d, same) (ground arith)
  | inr other ↦
      let rest = wanted-update type t id d s (rw other at h) in
      elim (Bool-cases (eq_int v.type t)) [
        | inl at_t ↦ rw (other, at_t, eq_int-apart v.type type t other at_t) refl
        | inr away ↦ rw (other, away) rest
      ]
]

has_type-update :
    (type t : ℤ) (id : ℕ) (d : Subscription) (s : List Subscription)
    → find_first (type_is type) s ≡ some d
    → has_type t (update_first (type_is type) (record d { id = id }) s) ≡ has_type t s
has_type-update type t id d [] h = refl
has_type-update type t id d (v ∷ s) h = elim (Bool-cases (eq_int v.type type)) [
  | inl here ↦ let e : v ≡ d = let h' = rw here at h in cc in rw (here, e) refl
  | inr other ↦
      rw other (ap (λ z. eq_int v.type t || z) (has_type-update type t id d s (rw other at h)))
]

pub update-OneEach :
    (type : ℤ) (id : ℕ) (d : Subscription) (s : List Subscription)
    → find_first (type_is type) s ≡ some d
    → OneEach s
    → OneEach (update_first (type_is type) (record d { id = id }) s)
update-OneEach type id d [] h o = tt
update-OneEach type id d (v ∷ s) h (out, o) = elim (Bool-cases (eq_int v.type type)) [
  | inl here ↦ let e : v ≡ d = let h' = rw here at h in cc in rw here (rw e at out, o)
  | inr other ↦
      let h' = rw other at h in
      rw other (has_type-update type v.type id d s h' ∙ out, update-OneEach type id d s h' o)
]

has_type-delete :
    (type t : ℤ) (s : List Subscription)
    → has_type t s ≡ false
    → has_type t (delete_first (type_is type) s) ≡ false
has_type-delete type t [] h = refl
has_type-delete type t (v ∷ s) h = ground (arith, has_type-delete type t s)

pub delete-OneEach :
    (type : ℤ) (s : List Subscription) → OneEach s → OneEach (delete_first (type_is type) s)
delete-OneEach type [] o = tt
delete-OneEach type (v ∷ s) (out, o) = elim (Bool-cases (eq_int v.type type)) [
  | inl here ↦ rw here o
  | inr other ↦ rw other (has_type-delete type v.type s out, delete-OneEach type s o)
]

pub wanted-delete :
    (type t : ℤ) (s : List Subscription)
    → OneEach s
    → wanted t (delete_first (type_is type) s) ≡ (if eq_int type t then 0 else wanted t s)
wanted-delete type t [] o = ground arith
wanted-delete type t (v ∷ s) (out, o) = elim (Bool-cases (eq_int v.type type)) [
  | inl here ↦
      let same = eq_int-≡ v.type type here in
      let out' = rw same at out in rw (here, same) (ground (arith, wanted-away type t s out'))
  | inr other ↦
      let rest = wanted-delete type t s o in
      elim (Bool-cases (eq_int v.type t)) [
        | inl at_t ↦ rw (other, at_t, eq_int-apart v.type type t other at_t) refl
        | inr away ↦ rw (other, away) rest
      ]
]

pub wanted-append :
    (t : ℤ) (s : List Subscription) (d : Subscription)
    → has_type d.type s ≡ false
    → wanted t (s ++ d ∷ []) ≡ (if eq_int d.type t then d.id else wanted t s)
wanted-append t [] d h = refl
wanted-append t (v ∷ s) d h = elim (Bool-cases (eq_int v.type t)) [
  | inl at_t ↦ rw (at_t, eq_int-apart v.type d.type t (ground arith) at_t) refl
  | inr away ↦ rw away (wanted-append t s d (ground arith))
]

has_type-append :
    (t : ℤ) (s : List Subscription) (d : Subscription)
    → has_type t (s ++ d ∷ []) ≡ (has_type t s || eq_int d.type t)
has_type-append t [] d = ground arith
has_type-append t (v ∷ s) d = ground (arith, has_type-append t s d)

pub append-OneEach :
    (s : List Subscription) (d : Subscription)
    → has_type d.type s ≡ false
    → OneEach s
    → OneEach (s ++ d ∷ [])
append-OneEach [] d h o = (refl, tt)
append-OneEach (v ∷ s) d h (out, o) =
    let other : eq_int v.type d.type ≡ false = ground arith in
    (
      ground (arith, has_type-append v.type s d, eq_int-sym v.type d.type other),
      append-OneEach s d (ground arith) o,
    )
