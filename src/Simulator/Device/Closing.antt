-- ===== src/Simulator/Device/Closing.antt =====
-- Closing the simulated camera gives back all that it holds (src/platform/simulator/csi_camera.c).
use csi_hal.Prelude.{ℕ, ◌≡◌, true, false, some, List, [], ◌∷◌, if◌then◌else◌}
use csi_hal.Llist.Chain.{has, Distinct}
use csi_hal.Simulator.Consumer.{CameraFrame}
use csi_hal.Simulator.Channels.{Heap}
use csi_hal.Simulator.Device.{Llist, Device}

-- The blocks of the frames and of the handle: different, and all there.
abbrev pub AllBlocks : List ℕ → Heap → Type 0
AllBlocks list heap =
    Distinct list
    × (has 0 list ≡ false)
    × ((a : ℕ) → has a list ≡ true → (size : ℕ) × (heap a ≡ some size))

abbrev pub bufs : List CameraFrame → List ℕ
bufs [] = []
bufs (f ∷ frames) = f.frame_bufs ∷ bufs frames

-- The nodes of a list with its head are free.
abbrev pub AllFreed : {A : Type 0} → Llist A → Llist A → Type 0
AllFreed l l' =
    (nodes : List ℕ) × ((p : ℕ)
      → l'.memory.live p ≡ (if has p (l.head ∷ nodes) then false else l.memory.live p))
