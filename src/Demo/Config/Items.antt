-- ===== src/Demo/Config/Items.antt =====
-- A line of the file, and the row that reading it fills.
use csi_hal.Prelude.{
  ℕ, zero, suc, ◌+◌, ◌≤◌, ◌<◌, pos, Option, none, some, ◌≡◌, refl, ap, sym, ◌∙◌, List, [], ◌∷◌,
  ◌++◌, arith, length, get_elem?, set, length-append, length-set, get_elem?-set_self,
  get_elem?-set_ne, get_elem?-some, get_elem?-inside,
}
use native.Mathlib.Decide.{dec_lt}
use csi_hal.Demo.Config.{Text, bar, newline, item_size, atoi, get_sub_str, fill_texts}
use csi_hal.Demo.Config.Fields.{Lacks, AllLack, joined, get_sub_str-joined}

-- The digit of a number below ten
abbrev pub digit : ℕ → Text
digit n = (48 + n) ∷ []

abbrev pub AllFit : List Text → Type 0
AllFit [] = Unit
AllFit (f ∷ fs) = (length f < item_size) × AllFit fs

-- The line of a menu, without its newline
abbrev pub body : ℕ → List Text → Text
body j items = joined (digit j ∷ digit (length items) ∷ items)

-- What a line can hold: items of which each fits into its text, not too many for a menu, and short
-- enough together to be read at once.
pub record IsMenu (j : ℕ) (items : List Text) : Type 0 where
  pub some_item : 0 < length items
  pub few : length items < 10
  pub fit : AllFit items
  pub no_bar : AllLack bar items
  pub no_newline : Lacks newline (body j items)
  pub short : length (body j items) ≤ 198

-- A row of the table holds a menu: its number of items in digits, and then these.
pub record Holds (row : List Text) (items : List Text) : Type 0 where
  pub counted : get_elem? row 0 ≡ some (digit (length items))
  pub item : (i : ℕ) (f : Text) → get_elem? items i ≡ some f → get_elem? row (suc i) ≡ some f

fits_at :
    (fs : List Text) (i : ℕ) {f : Text} → AllFit fs → get_elem? fs i ≡ some f → length f < item_size
fits_at [] i a e = cc
fits_at (g ∷ fs) zero (a, others) e =
    ground (arith, ap {B = ℕ} (λ (o : Option Text). elim o [ none ↦ 0 | some t ↦ length t ]) e)
fits_at (g ∷ fs) (suc i) (a, others) e = fits_at fs i others e

pub atoi-digit : (n : ℕ) → n < 10 → atoi (digit n) ≡ pos n
unfolding atoi
atoi-digit n h = ground arith

set-set_first : (row : List Text) (t : Text) → set (set row 0 t) 0 t ≡ set row 0 t
set-set_first [] t = refl
set-set_first (r ∷ row) t = refl

-- The items from the one at `k` on are in the row, behind what it held before.
record IsFilled (k : ℕ) (items row row' : List Text) : Type 0 where
  same_length : length row' ≡ length row
  kept : (i : ℕ) → i ≤ k → get_elem? row' i ≡ get_elem? row i
  item : (i : ℕ) (f : Text) → k ≤ i → get_elem? items i ≡ some f → get_elem? row' (suc i) ≡ some f

module _ (row : List Text) (k : ℕ) (f gs : Text) (counted : get_elem? row 0 ≡ some gs)
    (ten : length row ≡ 10) (inside : suc k < 10) where
  abbrev next_row : List Text
  next_row = set (set row 0 gs) (suc k) f

  length-next_row : length next_row ≡ length row
  length-next_row = length-set (set row 0 gs) (suc k) f ∙ length-set row 0 gs

  next_row_self : get_elem? next_row (suc k) ≡ some f
  next_row_self = get_elem?-set_self (set row 0 gs) (suc k) f (omega (arith, length-set row 0 gs))

  next_row_before : (i : ℕ) → i ≤ k → get_elem? next_row i ≡ get_elem? row i
  next_row_before zero h =
      get_elem?-set_ne (set row 0 gs) f (omega arith)
      ∙ get_elem?-set_self row 0 gs (omega arith)
      ∙ sym counted
  next_row_before (suc i) h =
      get_elem?-set_ne (set row 0 gs) f (omega arith) ∙ get_elem?-set_ne row gs (omega arith)

module _ (ss gs : Text) (items : List Text)
    (reads : (i : ℕ) (f : Text)
      → get_elem? items i ≡ some f
      → get_sub_str item_size ss bar (suc i + 1) ≡ some f)
    (few : length items < 10) where
  fill_texts-items :
      (n k : ℕ) (row : List Text)
      → k + n ≡ length items
      → length row ≡ 10
      → get_elem? row 0 ≡ some gs
      → (row' : List Text) × (fill_texts n (suc k) ss gs row ≡ some row')
        × IsFilled k items row row'
  unfolding fill_texts
  fill_texts-items zero k row e l z = (
    row,
    refl,
    record {
      same_length = refl;
      kept = λ i h. refl;
      item = λ i f h g. absurd (omega (arith, get_elem?-inside items i f g));
    },
  )
  fill_texts-items (suc n) k row e l z =
      let (f, at) = get_elem?-some items k (omega arith) in
      let row₁ : List Text = next_row row k f gs z l (omega arith) in
      let zero_kept = next_row_before row k f gs z l (omega arith) 0 (omega arith) in
      let (row', filled, r) =
        fill_texts-items n (suc k) row₁ (omega arith)
          (length-next_row row k f gs z l (omega arith) ∙ l) (zero_kept ∙ z) in
      (
        row',
        ground (arith, reads k f at, filled),
        record {
          same_length = r.same_length ∙ length-next_row row k f gs z l (omega arith);
          kept = λ i h. r.kept i (omega arith) ∙ next_row_before row k f gs z l (omega arith) i h;
          item = λ i g h e'. elim (dec_lt k i) [
            | yes later ↦ r.item i g (omega arith) e'
            | no here ↦
                let same : i ≡ k = omega arith in
                r.kept (suc i) (omega arith)
                ∙ ap (λ j. get_elem? row₁ (suc j)) same
                ∙ next_row_self row k f gs z l (omega arith)
                ∙ sym at
                ∙ ap (get_elem? items) (sym same)
                ∙ e'
          ];
        },
      )

fill_texts-set_first :
    (n : ℕ) (ss gs : Text) (row : List Text)
    → fill_texts (suc n) 1 ss gs (set row 0 gs) ≡ fill_texts (suc n) 1 ss gs row
unfolding fill_texts
fill_texts-set_first n ss gs row = rw (set-set_first row gs) refl

abbrev fields : ℕ → List Text → List Text
fields j items = digit j ∷ digit (length items) ∷ items

fields-lack : (j : ℕ) (items : List Text) → j < 10 → IsMenu j items → AllLack bar (fields j items)
fields-lack j items below menu = (
  (λ e. absurd (omega (arith, e, below)), tt),
  ((λ e. absurd (omega (arith, e, menu.few)), tt), menu.no_bar),
)

-- Each field of the line of a menu is found by its number.
pub get_sub_str-menu :
    (cap n j : ℕ) (items : List Text) {f : Text}
    → j < 10
    → IsMenu j items
    → get_elem? (digit j ∷ digit (length items) ∷ items) n ≡ some f
    → length f < cap
    → get_sub_str cap (body j items ++ (newline ∷ [])) bar n ≡ some f
get_sub_str-menu cap n j items below menu e small =
    get_sub_str-joined cap n (fields j items) (newline ∷ []) (fields-lack j items below menu)
      (omega (arith, length-append (body j items) (newline ∷ []), menu.short)) e small

-- The row that the line of a menu fills, whatever the row held before
pub fill_texts-Holds :
    (j : ℕ) (f : Text) (fs : List Text) (row : List Text)
    → j < 10
    → IsMenu j (f ∷ fs)
    → length row ≡ 10
    → (row' : List Text) × (fill_texts
          (suc (length fs))
          1
          (body j (f ∷ fs) ++ (newline ∷ []))
          (digit (suc (length fs)))
          row
        ≡ some row')
      × (length row' ≡ 10)
      × Holds row' (f ∷ fs)
fill_texts-Holds j f fs row below menu ten =
    let items : List Text = f ∷ fs in
    let ss : Text = body j items ++ (newline ∷ []) in
    let gs : Text = digit (length items) in
    let first : List Text = set row 0 gs in
    let (row', filled, r) =
      fill_texts-items ss gs items
        (λ i g e.
          let two_on : suc i + 1 ≡ suc (suc i) = omega arith in
          get_sub_str-menu item_size (suc i + 1) j items below menu
            (ap (get_elem? (fields j items)) two_on ∙ e) (fits_at items i menu.fit e))
        menu.few (length items) 0 first (omega arith) (length-set row 0 gs ∙ ten)
        (get_elem?-set_self row 0 gs (omega arith)) in
    (
      row',
      sym (fill_texts-set_first (length fs) ss gs row) ∙ filled,
      r.same_length ∙ length-set row 0 gs ∙ ten,
      record {
        counted = r.kept 0 (omega arith) ∙ get_elem?-set_self row 0 gs (omega arith);
        item = λ i g e. r.item i g (omega arith) e;
      },
    )
