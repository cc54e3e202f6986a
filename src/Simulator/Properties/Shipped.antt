-- ===== src/Simulator/Properties/Shipped.antt =====
-- The table that src/platform/simulator/csi_camera.c starts with: an entry for each id.
use csi_hal.Prelude.{ℕ, zero, suc, ◌≡◌, refl, arith, replicate}
use csi_hal.Simulator.Properties.{
  index_of, no_description, camera_property_descriptions, g_camera_property_descriptions,
}
use csi_hal.Simulator.Properties.Query.{Distinct, AllNamed}

zeros-Distinct : (m : ℕ) → Distinct (replicate m no_description)
unfolding Distinct
zeros-Distinct zero = tt
zeros-Distinct (suc m) = ((λ h. absurd (omega arith)), zeros-Distinct m)

pub table-Distinct : Distinct g_camera_property_descriptions
unfolding Distinct index_of
table-Distinct =
    let own : (n : ℕ) → n ≡ n = λ n. refl in
    (
      λ h. (omega arith, refl),
      (
        λ h. (omega arith, refl),
        (
          λ h. (omega arith, refl),
          (
            λ h. (omega arith, refl),
            (
              λ h. (omega arith, refl),
              (
                λ h. (omega arith, refl),
                (
                  λ h. (omega arith, refl),
                  (λ h. (omega arith, refl), (λ h. (omega arith, refl), zeros-Distinct 91)),
                ),
              ),
            ),
          ),
        ),
      ),
    )

pub table-AllNamed : AllNamed camera_property_descriptions
table-AllNamed = (
  omega arith,
  (
    omega arith,
    (
      omega arith,
      (omega arith, (omega arith, (omega arith, (omega arith, (omega arith, (omega arith, tt)))))),
    ),
  ),
)
