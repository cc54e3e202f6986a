-- ===== src/CameraString/Joining.antt =====
-- The two functions of src/common/camera_string.c that write out a bit mask.

use csi_hal.Prelude.{
  ℕ, zero, suc, ◌+◌, ◌-◌, ◌/◌, ◌%◌, ◌^◌, ◌≤◌, ◌≡◌, refl, ap, ◌∙◌, Bool, true, false, List, [], ◌∷◌,
  arith, if◌then◌else◌, ◌==◌, Bool-cases, inl, inr, ◌⊎◌,
}
use mathlib.Core.Path.{subst}
use Prim.Native.String.{String, ◌++◌, len}
use Prim.Native.String.append.{nil}
use csi_hal.CameraString.{
  bit_of, join_fields, camera_string_capture_type, camera_string_meta_field,
  camera_string_chn_capture_types, camera_string_chn_meta_fields,
}

-- Texts with a bar between them.
abbrev pub barred : String → List String → String
barred text [] = text
barred text (s ∷ ss) = barred ((text ++ "|") ++ s) ss

abbrev pub joined : List String → String
joined [] = ""
joined (s ∷ ss) = barred s ss

abbrev pub has_bit : ℕ → ℕ → Bool
has_bit k fields = if fields / 2 ^ k % 2 == 0 then false else true

-- The names of the bits that a mask has, by their numbers.
abbrev pub picked : ℕ → List (ℕ × String) → List String
picked fields [] = []
picked fields ((k, s) ∷ table) =
    if has_bit k fields then s ∷ picked fields table else picked fields table

-- The names that the loop meets, the empty ones left out.
unfoldable met : (ℕ → String) → ℕ → ℕ → ℕ → List String
met name zero k fields = []
met name (suc n) k fields =
    let item = name (bit_of k fields) in
    let rest = met name n (suc k) fields in if len item == 0 then rest else item ∷ rest

join_fields-barred :
    (name : ℕ → String) (n k fields : ℕ) (text : String)
    → join_fields name n k fields text true ≡ barred text (met name n k fields)
unfolding join_fields met
join_fields-barred name zero k fields text = refl
join_fields-barred name (suc n) k fields text =
    elim (Bool-cases (len (name (bit_of k fields)) == 0)) [
      | inl none_here ↦ simp none_here (join_fields-barred name n (suc k) fields text)
      | inr here ↦ simp here (join_fields-barred name n (suc k) fields _)
    ]

join_fields-joined :
    (name : ℕ → String) (n k fields : ℕ)
    → join_fields name n k fields "" false ≡ joined (met name n k fields)
unfolding join_fields met
join_fields-joined name zero k fields = refl
join_fields-joined name (suc n) k fields = elim (Bool-cases (len (name (bit_of k fields)) == 0)) [
  | inl none_here ↦ simp none_here (join_fields-joined name n (suc k) fields)
  | inr here ↦ simp here (
      join_fields-barred name n (suc k) fields _
      ∙ ap (λ t. barred t (met name n (suc k) fields)) (λ i. nil (name (bit_of k fields)) i))
]

pow-above : (c d : ℕ) → 2 ^ c ≤ 2 ^ (c + d)
pow-above zero d = let same : d ≡ 0 + d = omega arith in subst (λ x. 1 ≤ 2 ^ x) same (pow-pos d)
  where
    pow-pos : (d : ℕ) → 1 ≤ 2 ^ d
    pow-pos zero = omega arith
    pow-pos (suc d) = omega (arith, pow-pos d)
pow-above (suc c) d =
    let same : suc (c + d) ≡ suc c + d = omega arith in
    subst (λ x. 2 ^ suc c ≤ 2 ^ x) same (omega (arith, pow-above c d))

-- A bit from place `c` on is 0 or not below `2 ^ c`.
bit_of-above : (c j fields : ℕ) → c ≤ j → (bit_of j fields ≡ 0) ⊎ (2 ^ c ≤ bit_of j fields)
unfolding bit_of
bit_of-above c j fields h =
    let d : c + (j - c) ≡ j = omega arith in
    let large : 2 ^ c ≤ 2 ^ j = subst (λ x. 2 ^ c ≤ 2 ^ x) d (pow-above c (j - c)) in
    elim (Bool-cases (fields / 2 ^ j % 2 == 0)) [
      | inl off ↦ inl (rw (off, bit_of) refl)
      | inr on ↦ inr (rw (on, bit_of) large)
    ]

met-none :
    (name : ℕ → String) (n k fields : ℕ)
    → ((j : ℕ) → k ≤ j → name (bit_of j fields) ≡ "")
    → met name n k fields ≡ []
unfolding met
met-none name zero k fields h = refl
met-none name (suc n) k fields h =
    simp (h k (omega arith)) (met-none name n (suc k) fields (λ j le. h j (omega arith)))

capture_type-none : (x : ℕ) → (x ≡ 0) ⊎ (4 ≤ x) → camera_string_capture_type x false ≡ ""
capture_type-none x h = ground arith

meta_field-none : (x : ℕ) → (x ≡ 0) ⊎ (32 ≤ x) → camera_string_meta_field x false ≡ ""
meta_field-none x h = ground arith

-- One turn of the loop on a bit that has a name.
met-named :
    (name : ℕ → String) (n k fields : ℕ)
    → name 0 ≡ ""
    → (len (name (2 ^ k)) == 0) ≡ false
    → met name (suc n) k fields ≡ (
        if has_bit k fields
        then name (2 ^ k) ∷ met name n (suc k) fields
        else met name n (suc k) fields)
unfolding met bit_of
met-named name n k fields z h = elim (Bool-cases (fields / 2 ^ k % 2 == 0)) [
  | inl off ↦ simp (off, z) refl
  | inr on ↦ simp (on, h) refl
]

-- Whatever the bits: the text of `camera_string_chn_capture_types` is "Video" if bit 0 is set and
-- "Meta" if bit 1 is, in this order with a bar between them, and nothing of any other bit.
pub capture_types-picked :
    (fields : ℕ)
    → camera_string_chn_capture_types fields
      ≡ joined (picked fields ((0, "Video") ∷ (1, "Meta") ∷ []))
unfolding camera_string_chn_capture_types
capture_types-picked fields =
    let name : ℕ → String = λ type. camera_string_capture_type type false in
    let rest : met name 29 2 fields ≡ [] =
      met-none name 29 2 fields
        (λ j h. capture_type-none (bit_of j fields) (bit_of-above 2 j fields h)) in
    join_fields-joined name 31 0 fields
    ∙ ap joined (
        met-named name 30 0 fields refl refl
        ∙ ap (λ l. if has_bit 0 fields then "Video" ∷ l else l)
            (met-named name 29 1 fields refl refl
              ∙ ap (λ l. if has_bit 1 fields then "Meta" ∷ l else l) rest))

-- Whatever the bits: the text of `camera_string_chn_meta_fields` is the names of those of its five
-- bits that are set, in order with bars between them, and nothing of any other bit.
pub meta_fields-picked :
    (fields : ℕ)
    → camera_string_chn_meta_fields fields
      ≡ joined (
          picked fields (
            (0, "Cam_Name")
            ∷ (1, "Chn_ID")
            ∷ (2, "Frm_ID")
            ∷ (3, "Timestamp")
            ∷ (4, "Is_HDR")
            ∷ []))
unfolding camera_string_chn_meta_fields
meta_fields-picked fields =
    let name : ℕ → String = λ type. camera_string_meta_field type false in
    let rest : met name 26 5 fields ≡ [] =
      met-none name 26 5 fields
        (λ j h. meta_field-none (bit_of j fields) (bit_of-above 5 j fields h)) in
    join_fields-joined name 31 0 fields
    ∙ ap joined (
        met-named name 30 0 fields refl refl
        ∙ ap (λ l. if has_bit 0 fields then "Cam_Name" ∷ l else l)
            (met-named name 29 1 fields refl refl
              ∙ ap (λ l. if has_bit 1 fields then "Chn_ID" ∷ l else l)
                  (met-named name 28 2 fields refl refl
                    ∙ ap (λ l. if has_bit 2 fields then "Frm_ID" ∷ l else l)
                        (met-named name 27 3 fields refl refl
                          ∙ ap (λ l. if has_bit 3 fields then "Timestamp" ∷ l else l)
                              (met-named name 26 4 fields refl refl
                                ∙ ap (λ l. if has_bit 4 fields then "Is_HDR" ∷ l else l) rest)))))
