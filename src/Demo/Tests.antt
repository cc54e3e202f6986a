-- ===== src/Demo/Tests.antt =====
-- The configuration that the test tool comes with, and keys that walk through it.
use Prim.Native.Char.{code}
use Prim.Native.String.{String}
use csi_hal.Prelude.{none, some, ◌≡◌, refl, List, [], ◌∷◌, arith}
use csi_hal.Demo.Config.{Text, Table, empty_table, get_param}
use csi_hal.Demo.Config.RoundTrip.{print, AreMenus, IsRead, get_param-print}
use csi_hal.Demo.Menu.{
  Key, key_down, key_left, key_right, enter, escape, number, Screen, menu_bar, closed_screen,
  Dialog, camera_set_mode, channel_run, press_all,
}
use csi_hal.Demo.Menu.Inside.{AllKnown}
use csi_hal.Demo.Served.{keys-AllKnown}

abbrev codes : String → Text
codes String.[] = []
codes (String.◌∷◌ c s) = code c ∷ codes s

abbrev texts : List String → List Text
texts [] = []
texts (s ∷ ss) = codes s ∷ texts ss

-- examples/camera/camera_demo3.conf
abbrev names : List Text
names = texts ("Camera" ∷ "Channel" ∷ "Event&Run" ∷ "Capture" ∷ "Help" ∷ [])

abbrev menus : List (List Text)
menus =
    texts ("List Cameras" ∷ "Open Camera" ∷ "Set Mode" ∷ "Set Property" ∷ "Close Camera" ∷ [])
    ∷ texts ("List Channels" ∷ "Open Channel" ∷ "Close Channel" ∷ [])
    ∷ texts ("Subscribe&Action" ∷ "Start/Stop" ∷ [])
    ∷ texts ("menu41" ∷ "menu42" ∷ "menu43" ∷ "menu44" ∷ [])
    ∷ texts ("menu51" ∷ "menu52" ∷ [])
    ∷ texts ("menu61" ∷ [])
    ∷ []

are_menus : AreMenus 0 (names ∷ menus)
are_menus = omega arith

get_param-print_example :
    (param : Table) × (get_param (print 0 (names ∷ menus)) ≡ some param)
    × IsRead 0 (names ∷ menus) empty_table param
get_param-print_example = get_param-print (names ∷ menus) (omega arith) are_menus

keys-AllKnown_example :
    (param : Table) × (get_param (print 0 (names ∷ menus)) ≡ some param)
    × ((keys : List Key)
        → (s : Screen) × (ds : List Dialog) × (press_all param menu_bar keys ≡ some (s, ds))
          × AllKnown ds)
keys-AllKnown_example =
    keys-AllKnown names menus are_menus (omega arith) (omega arith) (omega arith) (omega arith)
      (omega arith)

-- Third item of the first menu, then the second of the menu to the left of it, and out of a third.
abbrev walk : List Key
walk =
    number 1
    ∷ key_down
    ∷ key_down
    ∷ enter
    ∷ number 2
    ∷ key_right
    ∷ key_down
    ∷ enter
    ∷ number 1
    ∷ key_left
    ∷ escape
    ∷ number 0
    ∷ []

abbrev read_table : Table
unfolding get_param
read_table = elim (get_param (print 0 (names ∷ menus))) [ none ↦ [] | some param ↦ param ]

walk_lem :
    press_all read_table menu_bar walk
    ≡ some (closed_screen, camera_set_mode ∷ channel_run ∷ Dialog.unsupported_menu ∷ [])
unfolding press_all read_table
walk_lem = refl
