-- ===== src/Demo/Settings/Menu.antt =====
-- What comes of the dialog of a camera's properties (`dialog_camera_property_list` of
-- camera_demo3_srcs/dialog_camera_property_list.c), for any choices of the user.
use csi_hal.Prelude.{
  ℕ, zero, suc, ℤ, minus_one, ◌≡◌, ◌⊎◌, true, false, List, [], ◌∷◌, if◌then◌else◌, ltb, length, pos,
}
use csi_hal.Simulator.Types.{Value, Description, Property}
use csi_hal.Simulator.Properties.{index_of}
use csi_hal.Simulator.Properties.Query.{Distinct, AllNamed}
use csi_hal.Simulator.Properties.Assign.{value_of}
use csi_hal.Simulator.Properties.Refused.{Refuses}
use csi_hal.Demo.Settings.{
  Choice, escape, cancel, apply, select, DialogOutcome, waiting, closed, key_esc,
  fill_camera_property_items, edited,
}
use csi_hal.Demo.Settings.Applied.{AllSet}

-- The items with one of them edited
unfoldable pub write : List Description → ℕ → Value → List Description
write [] k value = []
write (d ∷ nodes) zero value = edited d value ∷ nodes
write (d ∷ nodes) (suc k) value = d ∷ write nodes k value

-- What the choices come to: a menu that is still open, with its items as edited; nothing; or a
-- confirmation of the items as edited.
pub data Ending : Type 0 where
  still_open confirmed : List Description → Ending
  given_up : Ending

unfoldable pub ending : List Description → List Choice → Ending
unfolding write
ending nodes [] = still_open nodes
ending nodes (escape ∷ choices) = given_up
ending nodes (cancel ∷ choices) = given_up
ending nodes (apply true ∷ choices) = confirmed nodes
ending nodes (apply false ∷ choices) = ending nodes choices
ending nodes (select k value ∷ choices) =
    if ltb k (length nodes) then ending (write nodes k value) choices else given_up

module _ {World : Type 0} (opencv : Property → World → ℤ × World) (idx : ℕ) where
  -- An outcome that keeps the promise of an ending. A confirmation returns 0 with the camera as edited,
  -- or -1 where OpenCV refuses a property.
  unfoldable pub Kept : List Description → World → Ending → DialogOutcome World → Type 0
  Kept table w (still_open nodes) (waiting nodes') = nodes' ≡ nodes
  Kept table w given_up (closed ret table' w') = (ret ≡ key_esc) × (table' ≡ table) × (w' ≡ w)
  Kept table w (confirmed nodes) (closed ret table' w') =
      (((ret ≡ pos 0) × AllSet table' nodes) ⊎ ((ret ≡ minus_one) × Refuses opencv idx))
      × ((id : ℕ) → index_of id nodes ≡ length nodes → value_of id table' ≡ value_of id table)
  Kept table w e o = ⊥

-- Items with an id each, of types that are printed
abbrev pub Listed : List Description → Type 0
Listed nodes = Distinct nodes × AllNamed nodes × (fill_camera_property_items nodes ≡ true)
