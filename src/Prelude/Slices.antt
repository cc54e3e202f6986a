-- ===== src/Prelude/Slices.antt =====
-- The parts of lists: their places after `take`, `drop`, `write_at` and `++`.
use Prim.Native.Nat.{ℕ, zero, suc, ◌+◌, ◌-◌, ◌≤◌, ◌<◌, min}
use mathlib.Core.Path.{◌≡◌, refl, ap, ap₂, ◌∙◌}
use mathlib.Core.List.{List, [], ◌∷◌, ◌++◌}
use mathlib.Core.Bool.{◌&&◌}
use native.Mathlib.Omega.{arith}
use csi_hal.Prelude.Tests.{ltb, leb, ◌==◌, if◌then◌else◌}
use csi_hal.Prelude.Lists.{
  length, get_or, set, take, drop, write_at, tabulate, length-set, get_or-set, tabulate_ext,
  shift_by,
}

module _ {A : Type 0} where
  get_or-cons :
      (x : A) (xs : List A) (k : ℕ) (d : A)
      → get_or (x ∷ xs) k d ≡ (if k == 0 then x else get_or xs (k - 1) d)
  get_or-cons x xs zero d = refl
  get_or-cons x xs (suc k) d = ground arith

  pub get_or-write_at :
      (buf : List A) (i j : ℕ) (xs : List A) (d : A)
      → i + length xs ≤ length buf
      → get_or (write_at buf i xs) j d
        ≡ (if leb i j && ltb j (i + length xs) then get_or xs (j - i) d else get_or buf j d)
  get_or-write_at buf i j [] d h = ground arith
  get_or-write_at buf i j (x ∷ xs) d h =
      let step : j - i - 1 ≡ j - suc i = omega arith in
      ground (
        arith,
        get_or-write_at (set buf i x) (suc i) j xs d,
        get_or-set buf i j x d,
        length-set buf i x,
        get_or-cons x xs (j - i) d,
      )

  pub length-take : (n : ℕ) (xs : List A) → length (take n xs) ≡ min n (length xs)
  length-take zero xs = omega arith
  length-take (suc n) [] = omega arith
  length-take (suc n) (x ∷ xs) = omega (arith, length-take n xs)

  pub length-drop : (n : ℕ) (xs : List A) → length (drop n xs) ≡ length xs - n
  length-drop zero xs = omega arith
  length-drop (suc n) [] = omega arith
  length-drop (suc n) (x ∷ xs) = omega (arith, length-drop n xs)

  pub get_or-take :
      (n k : ℕ) (xs : List A) (d : A)
      → get_or (take n xs) k d ≡ (if ltb k n then get_or xs k d else d)
  get_or-take zero k xs d = ground arith
  get_or-take (suc n) k [] d = ground arith
  get_or-take (suc n) zero (x ∷ xs) d = ground arith
  get_or-take (suc n) (suc k) (x ∷ xs) d = ground (arith, get_or-take n k xs d)

  pub get_or-drop : (n k : ℕ) (xs : List A) (d : A) → get_or (drop n xs) k d ≡ get_or xs (n + k) d
  get_or-drop zero k xs d = ap (λ j. get_or xs j d) (omega arith)
  get_or-drop (suc n) k [] d = refl
  get_or-drop (suc n) k (x ∷ xs) d = get_or-drop n k xs d ∙ shift_by x xs n k d

  pub drop-tabulate :
      (f : ℕ → A) (i n s : ℕ) → i + n ≡ s → drop i (tabulate f s) ≡ tabulate (λ k. f (i + k)) n
  drop-tabulate f zero n s e =
      let e' : n ≡ s = omega arith in
      rw (← e') (tabulate_ext f (λ k. f (zero + k)) n (λ k b. ap f (omega arith)))
  drop-tabulate f (suc i) n zero e = absurd (omega arith)
  drop-tabulate f (suc i) n (suc s) e =
      drop-tabulate (λ k. f (suc k)) i n s (omega arith)
      ∙ tabulate_ext (λ k. f (suc (i + k))) (λ k. f (suc i + k)) n (λ k b. ap f (omega arith))

  pub take-tabulate : (f : ℕ → A) (n s : ℕ) → n ≤ s → take n (tabulate f s) ≡ tabulate f n
  take-tabulate f zero s h = refl
  take-tabulate f (suc n) zero h = absurd (omega arith)
  take-tabulate f (suc n) (suc s) h =
      ap (λ l. f zero ∷ l) (take-tabulate (λ k. f (suc k)) n s (omega arith))

  -- An array after memcpy of `n` elements of `src`, from its place `t` on, to its index `i`.
  pub get_or-copy :
      (buf src : List A) (i t n j : ℕ) (d : A)
      → i + n ≤ length buf
      → t + n ≤ length src
      → get_or (write_at buf i (take n (drop t src))) j d
        ≡ (if leb i j && ltb j (i + n) then get_or src (t + (j - i)) d else get_or buf j d)
  get_or-copy buf src i t n j d h k = ground (
    arith,
    get_or-write_at buf i j (take n (drop t src)) d,
    get_or-take n (j - i) (drop t src) d,
    get_or-drop t (j - i) src d,
    length-take n (drop t src),
    length-drop t src,
  )

  pub get_or-append :
      (xs ys : List A) (k : ℕ) (d : A)
      → get_or (xs ++ ys) k d
        ≡ (if ltb k (length xs) then get_or xs k d else get_or ys (k - length xs) d)
  get_or-append [] ys k d = ground arith
  get_or-append (x ∷ xs) ys zero d = ground arith
  get_or-append (x ∷ xs) ys (suc k) d = ground (arith, get_or-append xs ys k d)

  pub get_or-tabulate : (f : ℕ → A) (n k : ℕ) (d : A) → k < n → get_or (tabulate f n) k d ≡ f k
  get_or-tabulate f zero k d h = elim h [ ]
  get_or-tabulate f (suc n) zero d h = refl
  get_or-tabulate f (suc n) (suc k) d h = get_or-tabulate (λ j. f (suc j)) n k d (omega arith)

  pub list_ext :
      (xs ys : List A) (d : A)
      → length xs ≡ length ys
      → ((k : ℕ) → k < length xs → get_or xs k d ≡ get_or ys k d)
      → xs ≡ ys
  list_ext [] [] d e h = refl
  list_ext [] (y ∷ ys) d e h = absurd (omega arith)
  list_ext (x ∷ xs) [] d e h = absurd (omega arith)
  list_ext (x ∷ xs) (y ∷ ys) d e h =
      ap₂ ◌∷◌ (h 0 (omega arith)) (list_ext xs ys d (omega arith) (λ k b. h (suc k) (omega arith)))
