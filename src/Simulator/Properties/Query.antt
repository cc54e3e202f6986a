-- ===== src/Simulator/Properties/Query.antt =====
-- What `csi_camera_query_property` (src/platform/simulator/csi_camera.c) answers, and the
-- enumeration of all properties with it.
use csi_hal.Prelude.{
  ℕ, zero, suc, ◌+◌, ◌%◌, ◌<◌, ◌≤◌, pos, minus_one, is_zero, ◌≡◌, inl, inr, refl, ap, sym, ◌∙◌,
  true, false, none, some, List, [], ◌∷◌, ◌++◌, arith, if◌then◌else◌, ◌==◌, leb, get_elem?, length,
  drop, replicate, Option-cases,
}
use mathlib.Core.Option.{some-injective}
use csi_hal.Simulator.Types.{Description}
use csi_hal.Simulator.Properties.{
  index_of, known_at, flag_next_ctrl, csi_camera_query_property, no_description,
}

-- Each id but 0 has one entry, and leaves the top bit free.
unfoldable pub Distinct : List Description → Type 0
Distinct [] = Unit {0}
Distinct (d ∷ table) =
    (0 < d.id → (d.id < flag_next_ctrl) × (index_of d.id table ≡ length table)) × Distinct table

get_elem?-lt :
    (table : List Description) (k : ℕ) (d : Description)
    → get_elem? table k ≡ some d
    → k < length table
get_elem?-lt [] k d e = cc
get_elem?-lt (b ∷ table) zero d e = omega arith
get_elem?-lt (b ∷ table) (suc k) d e = omega (arith, get_elem?-lt table k d e)

index_of-le :
    (table : List Description) (k : ℕ) (d : Description)
    → get_elem? table k ≡ some d
    → index_of d.id table ≤ k
unfolding index_of
index_of-le [] k d e = cc
index_of-le (b ∷ table) zero d e =
    let same : b ≡ d = some-injective _ _ e in rw (sym same) (ground arith)
index_of-le (b ∷ table) (suc k) d e = ground (arith, index_of-le table k d e)

-- In such a table the search for an entry's id ends at the entry.
pub index_of-at :
    (table : List Description) (k : ℕ) (d : Description)
    → Distinct table
    → get_elem? table k ≡ some d
    → 0 < d.id
    → (index_of d.id table ≡ k) × (d.id < flag_next_ctrl)
unfolding index_of Distinct
index_of-at [] k d v e h = cc
index_of-at (b ∷ table) zero d v e h =
    let same : b ≡ d = some-injective _ _ e in ground (arith, v.0, ap (λ x. x.id) same)
index_of-at (b ∷ table) (suc k) d v e h =
    let (there, small) = index_of-at table k d v.1 e h in
    (ground (arith, there, v.0, get_elem?-lt table k d e), small)

-- On a table that has an entry for each id at most, for the entry at place `k`: its id is answered
-- with the entry, and its id with the flag CSI_CAMERA_FLAG_NEXT_CTRL with the entry behind it, or
-- with -1 and the id without the flag where there is none.
pub query-entry :
    (table : List Description) (k : ℕ) (d asked : Description)
    → Distinct table
    → get_elem? table k ≡ some d
    → 0 < d.id
    → (csi_camera_query_property table (some (record asked { id = d.id })) ≡ (pos 0, some d))
      × (csi_camera_query_property table (some (record asked { id = flag_next_ctrl + d.id }))
          ≡ (elim (known_at (suc k) table) [
            | none ↦ (minus_one, some (record asked { id = d.id }))
            | some next ↦ (pos 0, some next)
          ]))
unfolding csi_camera_query_property
query-entry table k d asked v e h =
    let (at, small) = index_of-at table k d v e h in
    let plain : d.id % flag_next_ctrl ≡ d.id = omega arith in
    let cleared : (flag_next_ctrl + d.id) % flag_next_ctrl ≡ d.id = omega arith in
    let down : leb flag_next_ctrl d.id ≡ false = ground arith in
    let up : leb flag_next_ctrl (flag_next_ctrl + d.id) ≡ true = ground arith in
    let some_id : (d.id == 0) ≡ false = ground arith in
    (
      rw (plain, at, e, down, e, some_id, csi_camera_query_property) refl,
      rw (cleared, at, e, up, csi_camera_query_property)
          (ap
            (λ i. elim (known_at (suc k) table) [
              | none ↦ (minus_one, some (record asked { id = i }))
              | some next ↦ (pos 0, some next)
            ])
            cleared),
    )

-- The client's loop: it asks with the flag for the entry behind the last one, until there is none.
unfoldable pub walk : ℕ → List Description → Description → List Description
unfolding csi_camera_query_property
walk zero table d = []
walk (suc fuel) table d =
    let (ret, o) =
      csi_camera_query_property table (some (record d { id = flag_next_ctrl + d.id })) in
    elim o [ none ↦ [] | some next ↦ if is_zero ret then next ∷ walk fuel table next else [] ]

abbrev pub AllNamed : List Description → Type 0
AllNamed [] = Unit {0}
AllNamed (d ∷ table) = (0 < d.id) × AllNamed table

pub get_elem?-named :
    (named : List Description) (k m : ℕ) (d : Description)
    → AllNamed named
    → get_elem? named k ≡ some d
    → (get_elem? (named ++ replicate m no_description) k ≡ some d) × (0 < d.id)
get_elem?-named [] k m d v e = cc
get_elem?-named (b ∷ named) zero m d v e =
    let same : b ≡ d = some-injective _ _ e in (e, ground (arith, v.0, ap (λ x. x.id) same))
get_elem?-named (b ∷ named) (suc k) m d v e = get_elem?-named named k m d v.1 e

pub known_at-named :
    (named : List Description) (k m : ℕ)
    → AllNamed named
    → known_at k (named ++ replicate m no_description) ≡ get_elem? named k
known_at-named [] zero zero v = refl
known_at-named [] zero (suc m) v = refl
known_at-named [] (suc k) zero v = refl
known_at-named [] (suc k) (suc m) v = known_at-named [] k m v
known_at-named (d ∷ named) zero m v = ground (arith, v.0)
known_at-named (d ∷ named) (suc k) m v = known_at-named named k m v.1

pub drop-step :
    (named : List Description) (k : ℕ) (d : Description)
    → get_elem? named k ≡ some d
    → drop k named ≡ d ∷ drop (suc k) named
drop-step [] k d e = cc
drop-step (b ∷ named) zero d e = ap (λ x. x ∷ named) (some-injective _ _ e)
drop-step (b ∷ named) (suc k) d e = drop-step named k d e

pub drop-none : (named : List Description) (k : ℕ) → get_elem? named k ≡ none → drop k named ≡ []
drop-none [] zero e = refl
drop-none [] (suc k) e = refl
drop-none (b ∷ named) zero e = cc
drop-none (b ∷ named) (suc k) e = drop-none named k e

-- On a table of named entries, each with its own id, and zero entries behind them: from any named
-- entry on, the client that asks with the flag is given every named entry behind it, in order, once,
-- and then nothing, in as many calls as there are entries left and one more.
pub walk-drop :
    (n m k : ℕ) (named : List Description) (d : Description)
    → let table = named ++ replicate m no_description in
      Distinct table
      → AllNamed named
      → get_elem? named k ≡ some d
      → length named ≤ k + n
      → walk n table d ≡ drop (suc k) named
unfolding walk
walk-drop zero m k named d v names e few = absurd (omega (arith, get_elem?-lt named k d e))
walk-drop (suc n) m k named d v names e few =
    let table = named ++ replicate m no_description in
    let (there, id) = get_elem?-named named k m d names e in
    let asked = (query-entry table k d d v there id).1 in
    let next = known_at-named named (suc k) m names in
    elim (Option-cases (get_elem? named (suc k))) [
      | inl e' ↦ simp (asked, next, e', walk) (sym (drop-none named (suc k) e'))
      | inr (d', e') ↦
          simp (asked, next, e', walk)
            (ap (λ l. d' ∷ l) (walk-drop n m (suc k) named d' v names e' (omega arith))
              ∙ sym (drop-step named (suc k) d' e'))
    ]
