-- ===== src/Display/Rows.antt =====
-- The copy of a plane, row by row.
use csi_hal.Prelude.{
  ℕ, zero, suc, ◌+◌, ◌-◌, ◌*◌, ◌≤◌, ◌<◌, some, ◌≡◌, refl, ap, ◌∙◌, List, arith, length, get_or,
  take, drop, write_at, get_or-copy, length-write_at,
}
use csi_hal.Display.{copy_rows}

-- The rows stand in `dst'`, from `d` on, as they stand in `src` from `s` on; nothing changes before
-- them and behind them.
pub record IsCopied (rows w srcw dsts s d : ℕ) (src dst dst' : List ℕ) : Type 0 where
  pub same_length : length dst' ≡ length dst
  pub row :
      (y x : ℕ)
      → y < rows
      → x < w
      → get_or dst' (d + y * dsts + x) 0 ≡ get_or src (s + y * srcw + x) 0
  pub before : (j : ℕ) → j < d → get_or dst' j 0 ≡ get_or dst j 0
  pub behind : (j : ℕ) → d + rows * dsts ≤ j → get_or dst' j 0 ≡ get_or dst j 0

-- One memcpy of `w` bytes
module _ (w s d : ℕ) (src dst : List ℕ) (h : s + w ≤ length src) (k : d + w ≤ length dst) where
  copy_inside :
      (x j : ℕ)
      → x < w
      → j ≡ d + x
      → get_or (write_at dst d (take w (drop s src))) j 0 ≡ get_or src (s + x) 0
  copy_inside x j b e =
      let from : s + (j - d) ≡ s + x = omega arith in
      ground (arith, get_or-copy dst src d s w j 0 k h, ap (λ i. get_or src i 0) from)

  copy_before : (j : ℕ) → j < d → get_or (write_at dst d (take w (drop s src))) j 0 ≡ get_or dst j 0
  copy_before j b = ground (arith, get_or-copy dst src d s w j 0 k h)

  copy_behind :
      (j : ℕ) → d + w ≤ j → get_or (write_at dst d (take w (drop s src))) j 0 ≡ get_or dst j 0
  copy_behind j b = ground (arith, get_or-copy dst src d s w j 0 k h)

-- The rows behind a first row
rows_from :
    (rows w srcw dsts s d : ℕ) (src dst' : List ℕ)
    → ((x : ℕ) → x < w → get_or dst' (d + x) 0 ≡ get_or src (s + x) 0)
    → ((y x : ℕ)
        → y < rows
        → x < w
        → get_or dst' (d + dsts + y * dsts + x) 0 ≡ get_or src (s + srcw + y * srcw + x) 0)
    → (y x : ℕ) → y < suc rows
    → x < w
    → get_or dst' (d + y * dsts + x) 0 ≡ get_or src (s + y * srcw + x) 0
rows_from rows w srcw dsts s d src dst' first others zero x b b' =
    ap (λ i. get_or dst' i 0) (omega arith) ∙ first x b' ∙ ap (λ i. get_or src i 0) (omega arith)
rows_from rows w srcw dsts s d src dst' first others (suc y) x b b' =
    ap (λ i. get_or dst' i 0) (omega arith)
    ∙ others y x (omega arith) b'
    ∙ ap (λ i. get_or src i 0) (omega arith)

module _ (w srcw dsts : ℕ) (src : List ℕ) (w-le-srcw : w ≤ srcw) (w-le-dsts : w ≤ dsts) where
  pub copy_rows-IsCopied :
      (rows s d : ℕ) (dst : List ℕ)
      → s + rows * srcw ≤ length src
      → d + rows * dsts ≤ length dst
      → (dst' : List ℕ) × (copy_rows rows w srcw dsts s d src dst ≡ some dst')
        × IsCopied rows w srcw dsts s d src dst dst'
  unfolding copy_rows
  copy_rows-IsCopied zero s d dst h k = (
    dst,
    refl,
    record {
      same_length = refl;
      row = λ y x b. absurd (omega arith);
      before = λ j b. refl;
      behind = λ j b. refl;
    },
  )
  copy_rows-IsCopied (suc rows) s d dst h k =
      let dst₁ : List ℕ = write_at dst d (take w (drop s src)) in
      let same : length dst₁ ≡ length dst = length-write_at dst d (take w (drop s src)) in
      let (dst', e, c) =
        copy_rows-IsCopied rows (s + srcw) (d + dsts) dst₁ (omega arith) (omega arith) in
      (
        dst',
        ground arith,
        record {
          same_length = c.same_length ∙ same;
          row =
              rows_from rows w srcw dsts s d src dst'
                (λ x b.
                  c.before (d + x) (omega arith)
                  ∙ copy_inside w s d src dst (omega arith) (omega arith) x (d + x) b refl)
                c.row;
          before = λ j b.
              c.before j (omega arith) ∙ copy_before w s d src dst (omega arith) (omega arith) j b;
          behind = λ j b.
              c.behind j (omega arith)
              ∙ copy_behind w s d src dst (omega arith) (omega arith) j (omega arith);
        },
      )
