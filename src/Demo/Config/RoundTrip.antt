-- ===== src/Demo/Config/RoundTrip.antt =====
-- A file that is written from menus gives them back when it is read.
use csi_hal.Prelude.{
  ℕ, zero, suc, ◌+◌, ◌≤◌, ◌<◌, false, Option, none, some, ◌≡◌, ◌≢◌, ◌⊎◌, inl, inr, refl, ap, sym,
  ◌∙◌, List, [], ◌∷◌, ◌++◌, arith, length, get_elem?, set, replicate, ◌>>=◌, length-set,
  get_elem?-set_self, get_elem?-set_ne, get_elem?-some, ◌==◌,
}
use mathlib.Core.Path.{subst}
use native.Mathlib.Decide.{dec_lt}
use csi_hal.Demo.Config.{
  Text, Table, bar, newline, empty_row, empty_table, atoi, get_sub_str, fill_row, read_line, lines,
  read_lines, get_param,
}
use csi_hal.Demo.Config.Fields.{lines-cons, lines-nil}
use csi_hal.Demo.Config.Items.{body, IsMenu, Holds, atoi-digit, get_sub_str-menu, fill_texts-Holds}

-- The file of menus, from number `j` on
abbrev pub print : ℕ → List (List Text) → Text
print j [] = []
print j (m ∷ ms) = body j m ++ (newline ∷ print (suc j) ms)

abbrev pub AreMenus : ℕ → List (List Text) → Type 0
AreMenus j [] = Unit
AreMenus j (m ∷ ms) = IsMenu j m × AreMenus (suc j) ms

-- A table of ten menus of ten texts
pub record IsTable (param : Table) : Type 0 where
  pub ten : length param ≡ 10
  pub row : (i : ℕ) (r : List Text) → get_elem? param i ≡ some r → length r ≡ 10

-- The menus stand in the table from row `j` on; no other row has changed.
pub record IsRead (j : ℕ) (ms : List (List Text)) (param param' : Table) : Type 0 where
  pub menu :
      (i : ℕ) (m : List Text)
      → get_elem? ms i ≡ some m
      → (r : List Text) × (get_elem? param' (j + i) ≡ some r) × Holds r m
  pub others : (i : ℕ) → (i < j) ⊎ (j + length ms ≤ i) → get_elem? param' i ≡ get_elem? param i

-- The line of a menu is no comment.
read_line-digit :
    (j : ℕ) (rest : Text) (param : Table)
    → j < 10
    → read_line ((48 + j) ∷ rest) param ≡ (
        get_sub_str 3 ((48 + j) ∷ rest) bar 0 >>= λ xm.
        get_sub_str 3 ((48 + j) ∷ rest) bar 1 >>= λ gs.
        fill_row (atoi xm) (atoi gs) ((48 + j) ∷ rest) gs param)
unfolding read_line
read_line-digit j rest param h =
    let digit_first : ((48 + j) == 0x23) ≡ false = ground arith in rw digit_first refl

read_line-menu :
    (j : ℕ) (f : Text) (fs : List Text) (param : Table) (row : List Text)
    → j < 10
    → IsMenu j (f ∷ fs)
    → get_elem? param j ≡ some row
    → length row ≡ 10
    → (row' : List Text) × (read_line (body j (f ∷ fs) ++ (newline ∷ [])) param
        ≡ some (set param j row'))
      × (length row' ≡ 10)
      × Holds row' (f ∷ fs)
unfolding fill_row
read_line-menu j f fs param row below menu at ten =
    let items : List Text = f ∷ fs in
    let (row', filled, ten', holds) = fill_texts-Holds j f fs row below menu ten in
    let number = get_sub_str-menu 3 0 j items below menu refl (omega arith) in
    let count = get_sub_str-menu 3 1 j items below menu refl (omega arith) in
    (
      row',
      read_line-digit j _ param below
          ∙ rw (number, count, atoi-digit j below, atoi-digit (length items) menu.few, at, filled)
              refl,
      ten',
      holds,
    )

read_line-IsTable :
    (j : ℕ) (param : Table) (row' : List Text)
    → IsTable param
    → j < 10
    → length row' ≡ 10
    → IsTable (set param j row')
read_line-IsTable j param row' t below ten = record {
  ten = length-set param j row' ∙ t.ten;
  row = λ i r e. elim (dec_lt i j) [
    | yes before ↦ t.row i r (sym (get_elem?-set_ne param row' (omega arith)) ∙ e)
    | no p ↦ elim (dec_lt j i) [
      | yes behind ↦ t.row i r (sym (get_elem?-set_ne param row' (omega arith)) ∙ e)
      | no q ↦
          let here : i ≡ j = omega arith in
          let written = get_elem?-set_self param j row' (omega (arith, t.ten)) in
          let same : some row' ≡ some r =
            sym written ∙ ap (get_elem? (set param j row')) (sym here) ∙ e in
          ap {B = ℕ} (λ (o : Option (List Text)). elim o [ none ↦ 0 | some l ↦ length l ])
            (sym same)
          ∙ ten
    ]
  ];
}

outside : (j i n : ℕ) → (i < j) ⊎ (j + suc n ≤ i) → (i < suc j) ⊎ (suc j + n ≤ i)
outside j i n (inl h) = inl (omega arith)
outside j i n (inr h) = inr (omega arith)

outside-ne : (j i n : ℕ) → (i < j) ⊎ (j + suc n ≤ i) → j ≢ i
outside-ne j i n (inl h) = λ e. absurd (omega arith)
outside-ne j i n (inr h) = λ e. absurd (omega arith)

menu_at :
    (j : ℕ) (m₀ : List Text) (ms : List (List Text)) (param₁ param' : Table) (row' : List Text)
    → get_elem? param₁ j ≡ some row'
    → Holds row' m₀
    → IsRead (suc j) ms param₁ param'
    → (i : ℕ) (m : List Text) → get_elem? (m₀ ∷ ms) i ≡ some m
    → (r : List Text) × (get_elem? param' (j + i) ≡ some r) × Holds r m
menu_at j m₀ ms param₁ param' row' self holds r zero m e =
    let here : j + 0 ≡ j = omega arith in
    (
      row',
      r.others (j + 0) (inl (omega arith)) ∙ ap (get_elem? param₁) here ∙ self,
      subst (Holds row') (cc) holds,
    )
menu_at j m₀ ms param₁ param' row' self holds r (suc i) m e =
    let (row, at, h) = r.menu i m e in
    let later : j + suc i ≡ suc j + i = omega arith in (row, ap (get_elem? param') later ∙ at, h)

-- Reading the lines of menus in order
read_lines-IsRead :
    (ms : List (List Text)) (j : ℕ) (param : Table)
    → IsTable param
    → j + length ms ≤ 10
    → AreMenus j ms
    → (param' : Table) × (read_lines (lines 198 [] (print j ms)) param ≡ some param')
      × IsRead j ms param param'
unfolding read_lines
read_lines-IsRead [] j param t few a =
    (param, rw (lines-nil 198 []) refl, record { menu = λ i m e. cc; others = λ i h. refl })
read_lines-IsRead ([] ∷ ms) j param t few (a, others) = absurd (omega (arith, a.some_item))
read_lines-IsRead ((f ∷ fs) ∷ ms) j param t few (a, others) =
    let (row, at) = get_elem?-some param j (omega (arith, t.ten)) in
    let (row', read, ten', holds) =
      read_line-menu j f fs param row (omega arith) a at (t.row j row at) in
    let param₁ : Table = set param j row' in
    let (param', rest, r) =
      read_lines-IsRead ms (suc j) param₁ (read_line-IsTable j param row' t (omega arith) ten')
        (omega arith) others in
    let self = get_elem?-set_self param j row' (omega (arith, t.ten)) in
    (
      param',
      rw (lines-cons (body j (f ∷ fs)) (print (suc j) ms) a.no_newline a.short, read) rest,
      record {
        menu = menu_at j (f ∷ fs) ms param₁ param' row' self holds r;
        others = λ i h.
            r.others i (outside j i (length ms) h)
            ∙ get_elem?-set_ne param row' (outside-ne j i (length ms) h);
      },
    )

empty_row-at :
    (i n : ℕ) (r : List Text) → get_elem? (replicate n empty_row) i ≡ some r → length r ≡ 10
empty_row-at i zero r e = cc
empty_row-at zero (suc n) r e =
    ap {B = ℕ} (λ (o : Option (List Text)). elim o [ none ↦ 0 | some l ↦ length l ]) (sym e)
empty_row-at (suc i) (suc n) r e = empty_row-at i n r e

-- A file that is written from at most ten menus of at most nine items each, whose items fit into 16
-- bytes and hold neither a bar nor a newline, and whose lines have at most 198 bytes before their
-- newline, is read with no access outside an array; each menu then stands in the row of its number
-- with the number of its items, and the rows behind the menus are empty.
pub get_param-print :
    (ms : List (List Text))
    → length ms ≤ 10
    → AreMenus 0 ms
    → (param : Table) × (get_param (print 0 ms) ≡ some param) × IsRead 0 ms empty_table param
unfolding get_param
get_param-print ms few a =
    read_lines-IsRead ms 0 empty_table (record { ten = refl; row = λ i. empty_row-at i 10 })
      (omega arith) a
