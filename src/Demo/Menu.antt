-- ===== src/Demo/Menu.antt =====
-- The keys of examples/camera/camera_demo3.c: the loop of `main` and `scroll_menu`, one key at a time,
-- and the dialogs that camera_demo3_srcs/menu_process.c opens for an item.
pub mod Inside
use csi_hal.Prelude.{
  ℕ, zero, suc, ◌+◌, ◌-◌, ◌%◌, ℤ, pos, minus_one, eq_int, Bool, true, false, ◌&&◌, Option, none,
  some, List, [], ◌∷◌, if◌then◌else◌, ◌==◌, ltb, leb, ◌>>=◌, get_elem?,
}
use csi_hal.Demo.Config.{Text, Table, atoi, to_count}

pub data Key : Type 0 where
  key_down key_up key_left key_right escape key_q enter other_key : Key
  number : ℕ → Key

-- `atoi(param[menu][0])`; `none` outside the table
unfoldable pub item_count : Table → ℕ → Option ℕ
unfolding atoi
item_count param menu = do
  row ← get_elem? param menu
  text ← get_elem? row 0
  some (to_count (atoi text))

-- What is on the screen: the menu bar, an open menu with its selected item, or nothing any more.
pub data Screen : Type 0 where
  menu_bar closed_screen : Screen
  open_menu : ℕ → ℕ → Screen

-- `draw_menu`: it marks the first item, which has to be there.
unfoldable pub draw_menu : Table → ℕ → Option Screen
unfolding item_count
draw_menu param menu =
    item_count param menu >>= λ count. if count == 0 then none else some (open_menu menu 0)

pub data Dialog : Type 0 where
  camera_list camera_open camera_set_mode camera_property_list camera_close : Dialog
  channel_list channel_open channel_close event_subscribe_action channel_run : Dialog
  no_dialog unknown_item unsupported_menu : Dialog

-- `menu_camera_process`, `menu_channel_process` and `menu_event_run_process`
unfoldable pub menu_camera_process : ℤ → Dialog
menu_camera_process item =
    if eq_int item (pos 0)
    then camera_list
    else if eq_int item (pos 1)
    then camera_open
    else if eq_int item (pos 2)
    then camera_set_mode
    else if eq_int item (pos 3)
    then camera_property_list
    else if eq_int item (pos 4)
    then camera_close
    else if eq_int item minus_one
    then no_dialog
    else unknown_item

unfoldable pub menu_channel_process : ℤ → Dialog
menu_channel_process item =
    if eq_int item (pos 0)
    then channel_list
    else if eq_int item (pos 1)
    then channel_open
    else if eq_int item (pos 2)
    then channel_close
    else if eq_int item minus_one
    then no_dialog
    else unknown_item

unfoldable pub menu_event_run_process : ℤ → Dialog
menu_event_run_process item =
    if eq_int item (pos 0)
    then event_subscribe_action
    else if eq_int item (pos 1)
    then channel_run
    else if eq_int item minus_one
    then no_dialog
    else unknown_item

-- The switch of `main` on the menu that `scroll_menu` returned. The test of the item against 13 behind
-- it is left out: no menu of the table has so many items.
unfoldable pub process : ℕ → ℤ → Dialog
unfolding menu_camera_process menu_channel_process menu_event_run_process
process menu item =
    if menu == 1
    then menu_camera_process item
    else if menu == 2
    then menu_channel_process item
    else if menu == 3
    then menu_event_run_process item
    else unsupported_menu

-- What a key leaves: the screen, and the dialog that it opened.
abbrev pub Outcome : Type 0
Outcome = Screen × Option Dialog

abbrev pub show : Option Screen → Option Outcome
show none = none
show (some s) = some (s, none)

-- The key to the left or the right: the menu beside, round the bar
unfoldable pub beside : ℕ → Bool → ℕ → ℕ
beside top right menu =
    if right
    then if ltb top (menu + 1) then 1 else menu + 1
    else if leb (menu - 1) 0
    then top
    else menu - 1

-- One key in `scroll_menu`; `main` then processes what it returns. `% 0` has no defined result.
unfoldable pub scroll_key : Table → ℕ → ℕ → Key → Option Outcome
unfolding item_count draw_menu process beside
scroll_key param menu selected key = do
  count ← item_count param menu
  top ← item_count param 0
  elim key [
    | key_down ↦ if count == 0 then none else some (open_menu menu ((selected + 1) % count), none)
    | key_up ↦
        if count == 0 then none else some (open_menu menu ((selected + count - 1) % count), none)
    | key_left ↦ show (draw_menu param (beside top false menu))
    | key_right ↦ show (draw_menu param (beside top true menu))
    | escape ↦ some (menu_bar, some (process menu minus_one))
    | key_q ↦ some (menu_bar, some (process menu minus_one))
    | enter ↦ some (menu_bar, some (process menu (pos selected)))
    | other_key ↦ some (open_menu menu selected, none)
    | number n ↦
        if n == 0
        then some (menu_bar, some (process menu minus_one))
        else some (open_menu menu selected, none)
  ]

-- One key in the loop of `main`: a number below ten opens its menu, `q` and 0 end the program.
unfoldable pub bar_key : Table → Key → Option Outcome
unfolding item_count draw_menu
bar_key param key_q = some (closed_screen, none)
bar_key param (number n) = item_count param 0 >>= λ top.
    if n == 0
    then some (closed_screen, none)
    else if leb n top
    then show (draw_menu param n)
    else some (menu_bar, none)
bar_key param _ = some (menu_bar, none)

unfoldable pub press : Table → Screen → Key → Option Outcome
unfolding scroll_key bar_key
press param menu_bar key = bar_key param key
press param (open_menu menu selected) key = scroll_key param menu selected key
press param closed_screen key = some (closed_screen, none)

abbrev pub opened : Option Dialog → List Dialog → List Dialog
opened none ds = ds
opened (some d) ds = d ∷ ds

-- All keys in order, and the dialogs that they open
unfoldable pub press_all : Table → Screen → List Key → Option (Screen × List Dialog)
unfolding press
press_all param s [] = some (s, [])
press_all param s (k ∷ keys) = do
  (s₁, d) ← press param s k
  (s₂, ds) ← press_all param s₁ keys
  some (s₂, opened d ds)
