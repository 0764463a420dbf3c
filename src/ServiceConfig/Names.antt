-- ===== src/ServiceConfig/Names.antt =====
-- What utils.ValidateWithLengthRange of utils/validator.go lets pass.
use Prim.Native.String.{len, ◌++◌}
use Prim.Native.String.append
use board_old.Prelude.{
  ℕ, ◌≤◌, ◌≡◌, refl, sym, ap, ◌∙◌, arith, leb, Bool, true, false, String, inl, inr, ◌⊎◌, Bool-cases,
  if◌then◌else◌,
}
use mathlib.Core.Path.{subst}
use board_old.ServiceConfig.Checks.{
  is_space, keep, trim_left, trim_right, trim_space, validate_with_length_range,
}

abbrev pub AllSpaces : String → Type 0
AllSpaces String.[] = Unit
AllSpaces (String.◌∷◌ c s) = (is_space c ≡ true) × AllSpaces s

-- The text has a first character, which is no blank.
abbrev pub StartsVisible : String → Type 0
StartsVisible String.[] = ⊥
StartsVisible (String.◌∷◌ c s) = is_space c ≡ false

-- Blanks, a text that is not empty, starts with another character and has at most `max` bytes, and
-- blanks.
abbrev pub IsName : String → ℕ → Type 0
IsName s max =
    (before : String) × (core : String) × (behind : String) × (s ≡ before ++ (core ++ behind))
    × AllSpaces before
    × AllSpaces behind
    × StartsVisible core
    × (len core ≤ max)

trim_left-split :
    (s : String) → (before : String) × (s ≡ before ++ trim_left is_space s) × AllSpaces before
unfolding trim_left
trim_left-split String.[] = ("", refl, tt)
trim_left-split (String.◌∷◌ c s) = elim (Bool-cases (is_space c)) [
  | inl e ↦
      let (before, split, spaces) = trim_left-split s in
      (
        String.◌∷◌ c before,
        ap (String.◌∷◌ c) split
            ∙ sym (append.cons c before (trim_left is_space s))
            ∙ ap (λ b. String.◌∷◌ c before ++ (if b then trim_left is_space s else String.◌∷◌ c s))
                (sym e),
        (e, spaces),
      )
  | inr e ↦ (
    "",
    sym (append.nil (String.◌∷◌ c s))
        ∙ ap (λ b. "" ++ (if b then trim_left is_space s else String.◌∷◌ c s)) (sym e),
    tt,
  )
]

trim_right-split :
    (s : String) → (behind : String) × (s ≡ trim_right is_space s ++ behind) × AllSpaces behind
unfolding trim_right
trim_right-split String.[] = ("", refl, tt)
trim_right-split (String.◌∷◌ c s) =
    let (behind, e, spaces) = trim_right-split s in kept (trim_right is_space s) behind e spaces
  where
    kept :
        (t behind : String)
        → s ≡ t ++ behind
        → AllSpaces behind
        → (b : String) × (String.◌∷◌ c s ≡ keep is_space c t ++ b) × AllSpaces b
    kept String.[] behind e spaces = elim (Bool-cases (is_space c)) [
      | inl f ↦ (
        String.◌∷◌ c behind,
        ap (String.◌∷◌ c) (e ∙ append.nil behind)
            ∙ sym (append.nil (String.◌∷◌ c behind))
            ∙ ap (λ b. (if b then "" else String.◌∷◌ c "") ++ String.◌∷◌ c behind) (sym f),
        (f, spaces),
      )
      | inr f ↦ (
        behind,
        ap (String.◌∷◌ c) e
            ∙ sym (append.cons c "" behind)
            ∙ ap (λ b. (if b then "" else String.◌∷◌ c "") ++ behind) (sym f),
        spaces,
      )
    ]
    kept (String.◌∷◌ d t) behind e spaces =
        (behind, ap (String.◌∷◌ c) e ∙ sym (append.cons c (String.◌∷◌ d t) behind), spaces)

-- What is left of a text without its blanks is empty, or starts with another character.
trim_left_starts : (s : String) → (trim_left is_space s ≡ "") ⊎ StartsVisible (trim_left is_space s)
unfolding trim_left
trim_left_starts String.[] = inl refl
trim_left_starts (String.◌∷◌ c s) = by_space (is_space c) refl (trim_left_starts s)
  where
    by_space :
        (b : Bool)
        → is_space c ≡ b
        → (trim_left is_space s ≡ "") ⊎ StartsVisible (trim_left is_space s)
        → ((if b then trim_left is_space s else String.◌∷◌ c s) ≡ "")
          ⊎ StartsVisible (if b then trim_left is_space s else String.◌∷◌ c s)
    by_space true e go = go
    by_space false e go = inr e

trim_right_starts : (s : String) → StartsVisible s → StartsVisible (trim_right is_space s)
unfolding trim_right
trim_right_starts String.[] h = h
trim_right_starts (String.◌∷◌ c s) h = kept (trim_right is_space s)
  where
    kept : (t : String) → StartsVisible (keep is_space c t)
    kept String.[] = subst (λ b. StartsVisible (if b then "" else String.◌∷◌ c "")) (sym h) h
    kept (String.◌∷◌ d t) = h

too_short : (s : String) → s ≡ "" → leb 1 (len (trim_right is_space s)) ≡ true → ⊥
unfolding trim_right
too_short s e h = let both = sym (ap (λ t. leb 1 (len (trim_right is_space t))) e) ∙ h in cc both

pub validate_with_length_range-IsName :
    (s : String) (max : ℕ) → validate_with_length_range s 1 max ≡ true → IsName s max
unfolding validate_with_length_range trim_space
validate_with_length_range-IsName s max h =
    let trimmed = trim_left is_space s in
    let (before, left, spaces) = trim_left-split s in
    let (behind, right, spaces') = trim_right-split trimmed in
    let long : leb 1 (len (trim_right is_space trimmed)) ≡ true = ground (arith, h) in
    let short : leb (len (trim_right is_space trimmed)) max ≡ true = ground (arith, h) in
    (
      before,
      trim_right is_space trimmed,
      behind,
      left ∙ ap (λ t. before ++ t) right,
      spaces,
      spaces',
      elim (trim_left_starts s) [
        | inl empty ↦ elim (too_short trimmed empty long) [ ]
        | inr starts ↦ trim_right_starts trimmed starts
      ],
      ground (arith, short),
    )
