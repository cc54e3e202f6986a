-- ===== src/Demo/Config.antt =====
-- examples/camera/camera_demo3_srcs/param.c: the file that names the menus and their items. A text
-- is its bytes, none of them NUL; `none` is an access outside an array.
pub mod Fields
pub mod Items
pub mod RoundTrip
use csi_hal.Prelude.{
  ℕ, zero, suc, ◌+◌, ◌-◌, ◌*◌, ℤ, pos, negsuc, Bool, true, false, ◌&&◌, ◌||◌, Option, none, some,
  List, [], ◌∷◌, ◌++◌, if◌then◌else◌, ◌==◌, ltb, leb, ◌>>=◌, length, get_elem?, set, replicate,
}

abbrev pub Text : Type 0
Text = List ℕ

abbrev pub bar : ℕ
bar = 0x7C

abbrev pub newline : ℕ
newline = 10

-- strchr: the text behind the first `ch`, and the text before it, where there is one.
unfoldable pub text_after : ℕ → Text → Option Text
text_after ch [] = none
text_after ch (c ∷ cs) = if c == ch then some cs else text_after ch cs

unfoldable pub text_before : ℕ → Text → Option Text
text_before ch [] = none
text_before ch (c ∷ cs) =
    if c == ch then some [] else elim (text_before ch cs) [ none ↦ none | some f ↦ some (c ∷ f) ]

-- The loop of `GetSubStr`: `p1` stays where there is no separator left.
unfoldable pub skip : ℕ → ℕ → Text → Text
unfolding text_after
skip ch zero p1 = p1
skip ch (suc n) p1 = skip ch n (elim (text_after ch p1) [ none ↦ p1 | some r ↦ r ])

-- `GetSubStr` into an array of `cap` bytes
unfoldable pub get_sub_str : ℕ → Text → ℕ → ℕ → Option Text
unfolding skip text_before
get_sub_str cap src ch n =
    if ltb (length src) 300
    then elim (text_before ch (skip ch n src)) [
      | none ↦ some []
      | some f ↦ if ltb (length f) cap then some f else none
    ]
    else none

unfoldable pub digits : ℕ → Text → ℕ
digits acc [] = acc
digits acc (c ∷ cs) = if leb 48 c && leb c 57 then digits (acc * 10 + (c - 48)) cs else acc

unfoldable pub signed : Text → ℤ
unfolding digits
signed [] = pos 0
signed (c ∷ cs) =
    let n : ℕ = digits 0 cs in
    if c == 0x2D
    then if n == 0 then pos 0 else negsuc (n - 1)
    else if c == 0x2B
    then pos n
    else pos (digits 0 (c ∷ cs))

-- atoi: white space, a sign, and digits.
unfoldable pub atoi : Text → ℤ
unfolding signed
atoi [] = pos 0
atoi (c ∷ cs) = if (c == 32) || (leb 9 c && leb c 13) then atoi cs else signed (c ∷ cs)

abbrev pub to_count : ℤ → ℕ
to_count (pos n) = n
to_count (negsuc n) = 0

-- `param`: ten menus of ten texts, the first of which is the number of items.
abbrev pub Table : Type 0
Table = List (List Text)

abbrev pub empty_row : List Text
empty_row = replicate 10 []

abbrev pub empty_table : Table
empty_table = replicate 10 empty_row

-- A text of `param` has place for MENU_ITEM_MAX_LEN bytes and the final NUL.
abbrev pub item_size : ℕ
item_size = 17

-- The loop over the items of a line, from item `i` on
unfoldable pub fill_texts : ℕ → ℕ → Text → Text → List Text → Option (List Text)
unfolding get_sub_str
fill_texts zero i ss gs row = some row
fill_texts (suc n) i ss gs row = do
  f ← get_sub_str item_size ss bar (i + 1)
  if ltb i 10 then fill_texts n (suc i) ss gs (set (set row 0 gs) i f) else none

unfoldable pub fill_row : ℤ → ℤ → Text → Text → Table → Option Table
unfolding fill_texts
fill_row j (negsuc n) ss gs param = some param
fill_row j (pos zero) ss gs param = some param
fill_row (negsuc j) (pos (suc n)) ss gs param = none
fill_row (pos j) (pos (suc n)) ss gs param = do
  row ← get_elem? param j
  row' ← fill_texts (suc n) 1 ss gs row
  some (set param j row')

-- One line of the file
unfoldable pub read_line : Text → Table → Option Table
unfolding get_sub_str atoi fill_row
read_line [] param = some param
read_line (c ∷ cs) param =
    let ss = c ∷ cs in
    if c == 0x23
    then some param
    else get_sub_str 3 ss bar 0 >>= λ xm.
        get_sub_str 3 ss bar 1 >>= λ gs. fill_row (atoi xm) (atoi gs) ss gs param

-- What the calls of `fgets` give: at most 199 bytes, up to and with a newline. A last line without
-- one meets the end of the file, and is left out. `room` bytes may follow the next one.
unfoldable pub lines : ℕ → Text → Text → List Text
lines room acc [] = []
lines zero acc (c ∷ cs) = (acc ++ (c ∷ [])) ∷ lines 198 [] cs
lines (suc room) acc (c ∷ cs) = elim (c == newline) [
  | true ↦ (acc ++ (c ∷ [])) ∷ lines 198 [] cs
  | false ↦ lines room (acc ++ (c ∷ [])) cs
]

unfoldable pub read_lines : List Text → Table → Option Table
unfolding read_line
read_lines [] param = some param
read_lines (l ∷ ls) param = read_line l param >>= read_lines ls

-- `get_param`, where the file is there
unfoldable pub get_param : Text → Option Table
unfolding lines read_lines
get_param file = read_lines (lines 198 [] file) empty_table
