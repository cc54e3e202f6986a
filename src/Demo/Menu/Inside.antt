-- ===== src/Demo/Menu/Inside.antt =====
-- Whatever keys are pressed, the selection stays inside the menus, and each item has its dialog.
use csi_hal.Prelude.{
  ℕ, ◌+◌, ◌-◌, ◌≤◌, ◌<◌, pos, minus_one, true, false, Option, none, some, ◌≡◌, ◌≢◌, refl, inl, inr,
  List, [], ◌∷◌, arith, leb, ◌==◌, Bool-cases,
}
use native.Mathlib.Nat.{mod-lt}
use csi_hal.Demo.Config.{Table}
use csi_hal.Demo.Menu.{
  Key, key_down, key_up, key_left, key_right, escape, key_q, enter, other_key, number, item_count,
  Screen, menu_bar, closed_screen, open_menu, draw_menu, Dialog, unknown_item, process, Outcome,
  show, beside, scroll_key, bar_key, press, opened, press_all,
}

-- The number of items is known for the bar and for each menu that it names, none of which is empty or
-- has more items than there are dialogs.
pub record IsServing (param : Table) : Type 0 where
  pub top : ℕ
  pub size : ℕ → ℕ
  pub bar : item_count param 0 ≡ some top
  pub menu : (m : ℕ) → 0 < m → m ≤ top → item_count param m ≡ some (size m)
  pub filled : (m : ℕ) → 0 < m → m ≤ top → 0 < size m
  pub camera : size 1 ≤ 5
  pub channel : size 2 ≤ 3
  pub event_run : size 3 ≤ 2

-- No dialog was for an item that the code does not know.
abbrev pub AllKnown : List Dialog → Type 0
AllKnown [] = Unit
AllKnown (d ∷ ds) = (d ≢ unknown_item) × AllKnown ds

module _ (param : Table) (v : IsServing param) where
  abbrev IsOn : Screen → Type 0
  IsOn menu_bar = Unit
  IsOn closed_screen = Unit
  IsOn (open_menu m i) = (0 < m) × (m ≤ v.top) × (i < v.size m)

  abbrev IsKnown : Option Dialog → Type 0
  IsKnown none = Unit
  IsKnown (some d) = d ≢ unknown_item

  abbrev Ends : Option Outcome → Type 0
  Ends none = ⊥
  Ends (some (s, d)) = IsOn s × IsKnown d

  draw_menu-Ends : (m : ℕ) → 0 < m → m ≤ v.top → Ends (show (draw_menu param m))
  unfolding draw_menu
  draw_menu-Ends m h k =
      let filled : (v.size m == 0) ≡ false = ground (arith, v.filled m h k) in
      rw (v.menu m h k, filled) ((h, k, v.filled m h k), tt)

  process-IsKnown : (m i : ℕ) → i < v.size m → IsKnown (some (process m (pos i)))
  unfolding process
  process-IsKnown m i h = ground (arith, v.camera, v.channel, v.event_run)

  process-IsKnown_escape : (m : ℕ) → IsKnown (some (process m minus_one))
  unfolding process
  process-IsKnown_escape m = ground arith

  beside-left :
      (m : ℕ) → 0 < m → m ≤ v.top → (0 < beside v.top false m) × (beside v.top false m ≤ v.top)
  unfolding beside
  beside-left m h k = ground arith

  beside-right :
      (m : ℕ) → 0 < m → m ≤ v.top → (0 < beside v.top true m) × (beside v.top true m ≤ v.top)
  unfolding beside
  beside-right m h k = ground arith

  -- One key in an open menu
  scroll_key-Ends : (m i : ℕ) (key : Key) → IsOn (open_menu m i) → Ends (scroll_key param m i key)
  unfolding scroll_key
  scroll_key-Ends m i key_down (h, k, b) =
      let filled : (v.size m == 0) ≡ false = ground (arith, v.filled m h k) in
      rw (v.menu m h k, v.bar, filled) ((h, k, mod-lt (i + 1) (v.filled m h k)), tt)
  scroll_key-Ends m i key_up (h, k, b) =
      let filled : (v.size m == 0) ≡ false = ground (arith, v.filled m h k) in
      rw (v.menu m h k, v.bar, filled) ((h, k, mod-lt (i + v.size m - 1) (v.filled m h k)), tt)
  scroll_key-Ends m i key_left (h, k, b) =
      let (h', k') = beside-left m h k in
      rw (v.menu m h k, v.bar) (draw_menu-Ends (beside v.top false m) h' k')
  scroll_key-Ends m i key_right (h, k, b) =
      let (h', k') = beside-right m h k in
      rw (v.menu m h k, v.bar) (draw_menu-Ends (beside v.top true m) h' k')
  scroll_key-Ends m i escape (h, k, b) = rw (v.menu m h k, v.bar) (tt, process-IsKnown_escape m)
  scroll_key-Ends m i key_q (h, k, b) = rw (v.menu m h k, v.bar) (tt, process-IsKnown_escape m)
  scroll_key-Ends m i enter (h, k, b) = rw (v.menu m h k, v.bar) (tt, process-IsKnown m i b)
  scroll_key-Ends m i other_key (h, k, b) = rw (v.menu m h k, v.bar) ((h, k, b), tt)
  scroll_key-Ends m i (number n) (h, k, b) = elim (Bool-cases (n == 0)) [
    | inl closes ↦ rw (v.menu m h k, v.bar, closes) (tt, process-IsKnown_escape m)
    | inr stays ↦ rw (v.menu m h k, v.bar, stays) ((h, k, b), tt)
  ]

  bar_number-Ends : (n : ℕ) → Ends (bar_key param (number n))
  unfolding bar_key
  bar_number-Ends n = elim (Bool-cases (n == 0)) [
    | inl ends ↦ rw (v.bar, ends) (tt, tt)
    | inr more ↦ elim (Bool-cases (leb n v.top)) [
      | inl inside ↦ rw (v.bar, more, inside) (draw_menu-Ends n (ground arith) (ground arith))
      | inr outside ↦ rw (v.bar, more, outside) (tt, tt)
    ]
  ]

  bar_key-Ends : (key : Key) → Ends (bar_key param key)
  unfolding bar_key
  bar_key-Ends key_q = (tt, tt)
  bar_key-Ends (number n) = bar_number-Ends n
  bar_key-Ends key_down = (tt, tt)
  bar_key-Ends key_up = (tt, tt)
  bar_key-Ends key_left = (tt, tt)
  bar_key-Ends key_right = (tt, tt)
  bar_key-Ends escape = (tt, tt)
  bar_key-Ends enter = (tt, tt)
  bar_key-Ends other_key = (tt, tt)

  press-Ends : (s : Screen) (key : Key) → IsOn s → Ends (press param s key)
  unfolding press
  press-Ends menu_bar key on = bar_key-Ends key
  press-Ends (open_menu m i) key on = scroll_key-Ends m i key on
  press-Ends closed_screen key on = (tt, tt)

  opened-AllKnown :
      (d : Option Dialog) (ds : List Dialog) → IsKnown d → AllKnown ds → AllKnown (opened d ds)
  opened-AllKnown none ds h k = k
  opened-AllKnown (some d) ds h k = (h, k)

  -- A key that has a result, taken out of it
  Ends-some :
      (o : Option Outcome)
      → Ends o
      → (s : Screen) × (d : Option Dialog) × (o ≡ some (s, d)) × IsOn s × IsKnown d
  Ends-some none h = elim h [ ]
  Ends-some (some (s, d)) h = (s, d, refl, h.0, h.1)

  pub press_all-AllKnown :
      (keys : List Key) (s : Screen)
      → IsOn s
      → (s' : Screen) × (ds : List Dialog) × (press_all param s keys ≡ some (s', ds)) × AllKnown ds
  unfolding press_all
  press_all-AllKnown [] s on = (s, [], refl, tt)
  press_all-AllKnown (key ∷ keys) s on =
      let (s₁, d, first, on₁, known) = Ends-some (press param s key) (press-Ends s key on) in
      let (s₂, ds, rest, all) = press_all-AllKnown keys s₁ on₁ in
      (s₂, opened d ds, simp (first, rest) refl, opened-AllKnown d ds known all)
