-- ===== src/Demo/Served.antt =====
-- From the configuration file to the dialogs: the file is read, and keys are pressed.
use csi_hal.Prelude.{
  ℕ, zero, suc, ◌+◌, ◌-◌, ◌≤◌, ◌<◌, some, ◌≡◌, refl, ap, ◌∙◌, List, [], ◌∷◌, arith, length,
  get_elem?, get_or,
}
use mathlib.Core.Path.{subst}
use csi_hal.Demo.Config.{Text, Table, empty_table, get_param}
use csi_hal.Demo.Config.Items.{IsMenu, Holds, atoi-digit}
use csi_hal.Demo.Config.RoundTrip.{print, AreMenus, IsRead, get_param-print}
use csi_hal.Demo.Menu.{Key, Screen, menu_bar, Dialog, item_count, press_all}
use csi_hal.Demo.Menu.Inside.{IsServing, AllKnown, press_all-AllKnown}

IsMenu-at :
    (ms : List (List Text)) (j i : ℕ) (m : List Text)
    → AreMenus j ms
    → get_elem? ms i ≡ some m
    → IsMenu (j + i) m
IsMenu-at [] j i m a e = cc
IsMenu-at (n ∷ ms) j zero m (a, others) e =
    let here : j ≡ j + 0 = omega arith in
    let same : n ≡ m = cc in subst (λ k. IsMenu k m) here (subst (IsMenu j) same a)
IsMenu-at (n ∷ ms) j (suc i) m (a, others) e =
    let later : suc j + i ≡ j + suc i = omega arith in
    subst (λ k. IsMenu k m) later (IsMenu-at ms (suc j) i m others e)

get_elem?-get_or :
    (menus : List (List Text)) (i : ℕ)
    → i < length menus
    → get_elem? menus i ≡ some (get_or menus i [])
get_elem?-get_or [] i h = elim h [ ]
get_elem?-get_or (m ∷ menus) zero h = refl
get_elem?-get_or (m ∷ menus) (suc i) h = get_elem?-get_or menus i (omega arith)

item_count-Holds :
    (param : Table) (m : ℕ) (row items : List Text)
    → get_elem? param m ≡ some row
    → Holds row items
    → length items < 10
    → item_count param m ≡ some (length items)
unfolding item_count
item_count-Holds param m row items at holds few =
    rw (at, holds.counted, atoi-digit (length items) few) refl

module _ (names : List Text) (menus : List (List Text)) (param : Table)
    (all : AreMenus 0 (names ∷ menus)) (read : IsRead 0 (names ∷ menus) empty_table param)
    (enough : length names ≤ length menus) where
  count_at :
      (i : ℕ) (m : List Text)
      → get_elem? (names ∷ menus) i ≡ some m
      → item_count param i ≡ some (length m)
  count_at i m e =
      let (row, at, holds) = read.menu i m e in
      let i_is : 0 + i ≡ i = omega arith in
      item_count-Holds param i row m (ap (get_elem? param) (omega arith) ∙ at) holds
        ((IsMenu-at (names ∷ menus) 0 i m all e).few)

  menu_is :
      (m : ℕ)
      → 0 < m
      → m ≤ length names
      → get_elem? (names ∷ menus) m ≡ some (get_or menus (m - 1) [])
  menu_is zero h k = elim h [ ]
  menu_is (suc i) h k =
      let before : suc i - 1 ≡ i = omega arith in rw before (get_elem?-get_or menus i (omega arith))

  serving :
      length (get_or menus 0 []) ≤ 5
      → length (get_or menus 1 []) ≤ 3
      → length (get_or menus 2 []) ≤ 2
      → IsServing param
  serving one two three = record {
    top = length names;
    size = λ m. length (get_or menus (m - 1) []);
    bar = count_at 0 names refl;
    menu = λ m h k. count_at m (get_or menus (m - 1) []) (menu_is m h k);
    filled = λ m h k.
        (IsMenu-at (names ∷ menus) 0 m (get_or menus (m - 1) []) all (menu_is m h k)).some_item;
    camera = one;
    channel = two;
    event_run = three;
  }

-- A configuration file is written from the names of the bar and then one menu for each, as
-- `IsMenu` says, with at most five items in the first menu, three in the second and two in the
-- third. It is read with no access outside an array; and whatever keys are pressed then, each has a
-- result, so nothing is drawn or computed out of range, and no item without a dialog is chosen from
-- the first three menus.
pub keys-AllKnown :
    (names : List Text) (menus : List (List Text))
    → AreMenus 0 (names ∷ menus)
    → length names ≤ length menus
    → length menus ≤ 9
    → length (get_or menus 0 []) ≤ 5
    → length (get_or menus 1 []) ≤ 3
    → length (get_or menus 2 []) ≤ 2
    → (param : Table) × (get_param (print 0 (names ∷ menus)) ≡ some param)
      × ((keys : List Key)
          → (s : Screen) × (ds : List Dialog) × (press_all param menu_bar keys ≡ some (s, ds))
            × AllKnown ds)
keys-AllKnown names menus all enough few one two three =
    let (param, parsed, read) = get_param-print (names ∷ menus) (omega arith) all in
    (
      param,
      parsed,
      λ keys.
          press_all-AllKnown param (serving names menus param all read enough one two three) keys
            menu_bar tt,
    )
