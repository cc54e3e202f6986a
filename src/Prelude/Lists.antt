-- ===== src/Prelude/Lists.antt =====
-- Lists measured and indexed by native numbers, under the library's names; C arrays and memcpy.
use Prim.Native.Nat.{ℕ, zero, suc, ◌+◌, ◌≤◌, ◌<◌}
use mathlib.Core.Path.{◌≡◌, refl, ap, ap₂, ◌∙◌}
use mathlib.Core.Logic.{◌≢◌}
use mathlib.Core.List.{List, [], ◌∷◌, ◌++◌, map}
use mathlib.Core.Option.{Option, none, some}
use mathlib.Core.Bool.{Bool, true, false}
use native.Mathlib.Omega.{arith}
use csi_hal.Prelude.Tests.{◌==◌, if◌then◌else◌}

module _ {ℓ} {A : Type ℓ} where
  abbrev pub length : List A → ℕ
  length [] = 0
  length (x ∷ xs) = suc (length xs)

  abbrev pub is_empty : List A → Bool
  is_empty [] = true
  is_empty (x ∷ xs) = false

  abbrev pub get_elem? : List A → ℕ → Option A
  get_elem? [] i = none
  get_elem? (x ∷ xs) zero = some x
  get_elem? (x ∷ xs) (suc i) = get_elem? xs i

  abbrev pub get_or : List A → ℕ → A → A
  get_or [] i d = d
  get_or (x ∷ xs) zero d = x
  get_or (x ∷ xs) (suc i) d = get_or xs i d

  -- A write out of bounds changes nothing.
  abbrev pub set : List A → ℕ → A → List A
  set [] i v = []
  set (x ∷ xs) zero v = v ∷ xs
  set (x ∷ xs) (suc i) v = x ∷ set xs i v

  abbrev pub take : ℕ → List A → List A
  take zero xs = []
  take (suc n) [] = []
  take (suc n) (x ∷ xs) = x ∷ take n xs

  abbrev pub drop : ℕ → List A → List A
  drop zero xs = xs
  drop (suc n) [] = []
  drop (suc n) (x ∷ xs) = drop n xs

  abbrev pub replicate : ℕ → A → List A
  replicate zero a = []
  replicate (suc n) a = a ∷ replicate n a

  -- memcpy of all of `xs` to the array `buf` from index `i` on.
  abbrev pub write_at : List A → ℕ → List A → List A
  write_at buf i [] = buf
  write_at buf i (x ∷ xs) = write_at (set buf i x) (suc i) xs

  -- The list of `f 0`, …, `f (n - 1)`.
  abbrev pub tabulate : (ℕ → A) → ℕ → List A
  tabulate f zero = []
  tabulate f (suc n) = f zero ∷ tabulate (λ k. f (suc k)) n

module _ {ℓ} {A : Type ℓ} where
  pub length-append : (xs ys : List A) → length (xs ++ ys) ≡ length xs + length ys
  length-append [] ys = omega arith
  length-append (x ∷ xs) ys = omega (arith, length-append xs ys)

  pub take-all : (xs : List A) → take (length xs) xs ≡ xs
  take-all [] = refl
  take-all (x ∷ xs) = ap (λ l. x ∷ l) (take-all xs)

  pub length-set : (xs : List A) (i : ℕ) (v : A) → length (set xs i v) ≡ length xs
  length-set [] i v = refl
  length-set (x ∷ xs) zero v = refl
  length-set (x ∷ xs) (suc i) v = ap suc (length-set xs i v)

  pub get_elem?-set_self :
      (xs : List A) (i : ℕ) (v : A) → i < length xs → get_elem? (set xs i v) i ≡ some v
  get_elem?-set_self [] i v h = elim h [ ]
  get_elem?-set_self (x ∷ xs) zero v h = refl
  get_elem?-set_self (x ∷ xs) (suc i) v h = get_elem?-set_self xs i v (omega arith)

  pub get_elem?-set_ne :
      (xs : List A) {i j : ℕ} (v : A) → i ≢ j → get_elem? (set xs i v) j ≡ get_elem? xs j
  get_elem?-set_ne [] v h = refl
  get_elem?-set_ne (x ∷ xs) {i = zero} {j = zero} v h = absurd (h refl)
  get_elem?-set_ne (x ∷ xs) {i = zero} {j = suc j} v h = refl
  get_elem?-set_ne (x ∷ xs) {i = suc i} {j = zero} v h = refl
  get_elem?-set_ne (x ∷ xs) {i = suc i} {j = suc j} v h = get_elem?-set_ne xs v (λ e. h (ap suc e))

  pub get_or-set :
      (xs : List A) (i j : ℕ) (v d : A)
      → i < length xs
      → get_or (set xs i v) j d ≡ (if i == j then v else get_or xs j d)
  get_or-set [] i j v d h = elim h [ ]
  get_or-set (x ∷ xs) zero zero v d h = refl
  get_or-set (x ∷ xs) zero (suc j) v d h = ground arith
  get_or-set (x ∷ xs) (suc i) zero v d h = ground arith
  get_or-set (x ∷ xs) (suc i) (suc j) v d h = ground (arith, get_or-set xs i j v d)

  pub length-write_at :
      (buf : List A) (i : ℕ) (xs : List A) → length (write_at buf i xs) ≡ length buf
  length-write_at buf i [] = refl
  length-write_at buf i (x ∷ xs) = length-write_at (set buf i x) (suc i) xs ∙ length-set buf i x

  pub length-tabulate : (f : ℕ → A) (n : ℕ) → length (tabulate f n) ≡ n
  length-tabulate f zero = refl
  length-tabulate f (suc n) = ap suc (length-tabulate (λ k. f (suc k)) n)

  pub tabulate_ext :
      (f g : ℕ → A) (n : ℕ) → ((k : ℕ) → k < n → f k ≡ g k) → tabulate f n ≡ tabulate g n
  tabulate_ext f g zero h = refl
  tabulate_ext f g (suc n) h =
      ap₂ ◌∷◌ (h 0 (omega arith))
        (tabulate_ext (λ k. f (suc k)) (λ k. g (suc k)) n (λ k b. h (suc k) (omega arith)))

  pub length-map {κ} : {B : Type κ} (f : A → B) (xs : List A) → length (map f xs) ≡ length xs
  length-map f [] = refl
  length-map f (x ∷ xs) = ap suc (length-map f xs)

  pub length-replicate : (n : ℕ) (a : A) → length (replicate n a) ≡ n
  length-replicate zero a = refl
  length-replicate (suc n) a = ap suc (length-replicate n a)

  pub get_elem?-map {κ} :
      {B : Type κ} (f : A → B) (xs : List A) (i : ℕ) (x : A)
      → get_elem? xs i ≡ some x
      → get_elem? (map f xs) i ≡ some (f x)
  get_elem?-map f [] i x e = cc
  get_elem?-map f (y ∷ xs) zero x e =
      ap (λ (o : Option A). elim o [ none ↦ none | some z ↦ some (f z) ]) e
  get_elem?-map f (y ∷ xs) (suc i) x e = get_elem?-map f xs i x e

  pub get_elem?-tabulate : (f : ℕ → A) (n i : ℕ) → i < n → get_elem? (tabulate f n) i ≡ some (f i)
  get_elem?-tabulate f zero i h = elim h [ ]
  get_elem?-tabulate f (suc n) zero h = refl
  get_elem?-tabulate f (suc n) (suc i) h = get_elem?-tabulate (λ k. f (suc k)) n i (omega arith)

  -- A place inside the list holds something.
  pub get_elem?-some : (xs : List A) (i : ℕ) → i < length xs → (x : A) × (get_elem? xs i ≡ some x)
  get_elem?-some [] i h = elim h [ ]
  get_elem?-some (x ∷ xs) zero h = (x, refl)
  get_elem?-some (x ∷ xs) (suc i) h = get_elem?-some xs i (omega arith)

  pub get_elem?-inside : (xs : List A) (i : ℕ) (x : A) → get_elem? xs i ≡ some x → i < length xs
  get_elem?-inside [] i x e = cc
  get_elem?-inside (y ∷ xs) zero x e = omega arith
  get_elem?-inside (y ∷ xs) (suc i) x e = omega (arith, get_elem?-inside xs i x e)

  -- A tabulation is cut at any point.
  pub tabulate-append :
      (f : ℕ → A) (n m s : ℕ)
      → n + m ≡ s
      → tabulate f s ≡ tabulate f n ++ tabulate (λ k. f (n + k)) m
  tabulate-append f zero m s e =
      let e' : m ≡ s = omega arith in
      rw (← e') (tabulate_ext f (λ k. f (zero + k)) m (λ k b. ap f (omega arith)))
  tabulate-append f (suc n) m zero e = absurd (omega arith)
  tabulate-append f (suc n) m (suc s) e =
      ap (λ l. f zero ∷ l)
        (tabulate-append (λ k. f (suc k)) n m s (omega arith)
          ∙ ap (λ l. tabulate (λ k. f (suc k)) n ++ l)
              (tabulate_ext (λ k. f (suc (n + k))) (λ k. f (suc n + k)) m
                (λ k b. ap f (omega arith))))

  pub shift :
      (x : A) (xs : List A) (k : ℕ) (d : A)
      → get_or xs (zero + k) d ≡ get_or (x ∷ xs) (zero + suc k) d
  shift x xs k d = let e : zero + suc k ≡ suc (zero + k) = omega arith in rw e refl

  pub shift_by :
      (x : A) (xs : List A) (i k : ℕ) (d : A) → get_or xs (i + k) d ≡ get_or (x ∷ xs) (suc i + k) d
  shift_by x xs i k d = let e : suc i + k ≡ suc (i + k) = omega arith in rw e refl

  -- An array is read out by `take` and `drop`.
  pub take-drop :
      (xs : List A) (i n : ℕ) (d : A)
      → i + n ≤ length xs
      → take n (drop i xs) ≡ tabulate (λ k. get_or xs (i + k) d) n
  take-drop xs i zero d h = refl
  take-drop [] i (suc n) d h = absurd (omega arith)
  take-drop (x ∷ xs) zero (suc n) d h = ap₂ ◌∷◌ refl (
      take-drop xs zero n d (omega arith)
      ∙ tabulate_ext (λ k. get_or xs (zero + k) d) _ n (λ k b. shift x xs k d))
  take-drop (x ∷ xs) (suc i) (suc n) d h =
      take-drop xs i (suc n) d (omega arith)
      ∙ tabulate_ext (λ k. get_or xs (i + k) d) (λ k. get_or (x ∷ xs) (suc i + k) d) (suc n)
          (λ k b. shift_by x xs i k d)
