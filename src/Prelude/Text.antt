-- ===== src/Prelude/Text.antt =====
-- Equality of texts, and the functions of Go's package `strings` on them.
use Prim.Native.Char.{code}
use Prim.Native.String.{find, len, ◌++◌}
use board_old.Prelude.{arith, inl, inr, suc, ℕ, ◌+◌, ◌==◌, false, ◌&&◌, leb, if◌then◌else◌}
use text.Mathlib.Text.{◌==◌ as eq_text}
use text.Mathlib.TextEquality.{eq_iff}
use text.Mathlib.TextFind.{find_cases}
use text.Mathlib.TextPositions.{eq_refl}
use board_old.Prelude.{String, Bool, true, ◌≡◌, ◌↔◌}

-- Go's `==` on strings.
abbrev pub str_eq : String → String → Bool
str_eq = eq_text

pub str_eq_iff : (s t : String) → (str_eq s t ≡ true) ↔ (s ≡ t)
str_eq_iff = eq_iff

pub str_eq_refl : (s : String) → str_eq s s ≡ true
str_eq_refl = eq_refl

-- `strings.Contains(s, substr)`
abbrev pub contains : String → String → Bool
contains s substr = leb (find s substr) (len s)

-- The code of a letter from A to Z becomes that of the small letter.
abbrev pub fold_code : ℕ → ℕ
fold_code c = if leb 65 c && leb c 90 then c + 32 else c

-- `strings.EqualFold(s, t)` for letters that have no other case than the two of ASCII, as all
-- letters of the texts have that the program compares with.
unfoldable pub equal_fold : String → String → Bool
equal_fold String.[] String.[] = true
equal_fold String.[] (String.◌∷◌ d t) = false
equal_fold (String.◌∷◌ c s) String.[] = false
equal_fold (String.◌∷◌ c s) (String.◌∷◌ d t) =
    (fold_code (code c) == fold_code (code d)) && equal_fold s t

-- A text in another.
abbrev pub IsPart : String → String → Type 0
IsPart t s = (u : String) × (v : String) × (s ≡ u ++ (t ++ v))

missed : (n m : ℕ) → n ≡ suc m → leb n m ≡ true → ⊥
missed n m e h = ground (arith, e, h)

pub contains-IsPart : (s t : String) → contains s t ≡ true → IsPart t s
contains-IsPart s t h = elim (find_cases s t) [
  | inl (u, v, e, _) ↦ (u, v, e)
  | inr miss ↦ elim (missed (find s t) (len s) miss h) [ ]
]
