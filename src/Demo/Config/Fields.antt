-- ===== src/Demo/Config/Fields.antt =====
-- The fields of a line, and how `GetSubStr` and `fgets` find them.
use csi_hal.Prelude.{
  ℕ, zero, suc, ◌≤◌, ◌<◌, false, some, ◌≡◌, ◌≢◌, refl, ◌∙◌, List, [], ◌∷◌, ◌++◌, arith, ◌==◌,
  length, get_elem?,
}
use mathlib.Core.List.{append_assoc}
use csi_hal.Demo.Config.{Text, bar, newline, text_after, text_before, skip, get_sub_str, lines}

-- The text does not hold the byte.
abbrev pub Lacks : ℕ → Text → Type 0
Lacks ch [] = Unit
Lacks ch (c ∷ cs) = (c ≢ ch) × Lacks ch cs

abbrev pub AllLack : ℕ → List Text → Type 0
AllLack ch [] = Unit
AllLack ch (f ∷ fs) = Lacks ch f × AllLack ch fs

-- Each field is ended by a bar.
abbrev pub joined : List Text → Text
joined [] = []
joined (f ∷ fs) = f ++ (bar ∷ joined fs)

text_after-field :
    (ch : ℕ) (f rest : Text) → Lacks ch f → text_after ch (f ++ (ch ∷ rest)) ≡ some rest
unfolding text_after
text_after-field ch [] rest l = ground arith
text_after-field ch (c ∷ f) rest (ne, l) = ground (arith, text_after-field ch f rest l)

text_before-field :
    (ch : ℕ) (f rest : Text) → Lacks ch f → text_before ch (f ++ (ch ∷ rest)) ≡ some f
unfolding text_before
text_before-field ch [] rest l = ground arith
text_before-field ch (c ∷ f) rest (ne, l) = ground (arith, text_before-field ch f rest l)

text_before-skip-joined :
    (n : ℕ) (fs : List Text) (rest : Text) {f : Text}
    → AllLack bar fs
    → get_elem? fs n ≡ some f
    → text_before bar (skip bar n (joined fs ++ rest)) ≡ some f
unfolding skip
text_before-skip-joined n [] rest l e = cc
text_before-skip-joined zero (g ∷ fs) rest (l, ls) e =
    rw append_assoc (text_before-field bar g (joined fs ++ rest) l ∙ e)
text_before-skip-joined (suc n) (g ∷ fs) rest (l, ls) e =
    rw (append_assoc, text_after-field bar g (joined fs ++ rest) l)
      (text_before-skip-joined n fs rest ls e)

-- `GetSubStr` finds each field of a line by its number.
pub get_sub_str-joined :
    (cap n : ℕ) (fs : List Text) (rest : Text) {f : Text}
    → AllLack bar fs
    → length (joined fs ++ rest) < 300
    → get_elem? fs n ≡ some f
    → length f < cap
    → get_sub_str cap (joined fs ++ rest) bar n ≡ some f
unfolding get_sub_str
get_sub_str-joined cap n fs rest l short e small =
    ground (arith, text_before-skip-joined n fs rest l e)

-- `fgets` gives a line that is short enough in one piece.
lines-line :
    (room : ℕ) (acc body rest : Text)
    → Lacks newline body
    → length body ≤ room
    → lines room acc (body ++ (newline ∷ rest))
      ≡ (acc ++ (body ++ (newline ∷ []))) ∷ lines 198 [] rest
unfolding lines
lines-line zero acc [] rest l h = refl
lines-line (suc room) acc [] rest l h = refl
lines-line zero acc (c ∷ body) rest l h = absurd (omega arith)
lines-line (suc room) acc (c ∷ body) rest (ne, l) h =
    let more : (c == newline) ≡ false = ground arith in
    rw (more, lines)
      (lines-line room (acc ++ (c ∷ [])) body rest l (omega arith) ∙ rw append_assoc refl)

pub lines-cons :
    (body rest : Text)
    → Lacks newline body
    → length body ≤ 198
    → lines 198 [] (body ++ (newline ∷ rest)) ≡ (body ++ (newline ∷ [])) ∷ lines 198 [] rest
lines-cons body rest l h = lines-line 198 [] body rest l h

pub lines-nil : (room : ℕ) (acc : Text) → lines room acc [] ≡ []
unfolding lines
lines-nil zero acc = refl
lines-nil (suc room) acc = refl
