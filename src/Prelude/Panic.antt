-- ===== src/Prelude/Panic.antt =====
-- Go code that may panic: `none` is a panic.
pub mod Laws
use board_old.Prelude.{ℕ, zero, suc, ◌+◌, Option, none, some, String, List, [], ◌∷◌, ◌==◌}
use board_old.Prelude.{if◌then◌else◌, leb}
use Prim.Native.Char.{Char, code, len_utf8}
use Prim.Native.String.{slice, len}

infixl 5 ◌>>=◌
abbrev pub ◌>>=◌ {ℓ κ} : {A : Type ℓ} {B : Type κ} → Option A → (A → Option B) → Option B
some a >>= f = f a
none >>= f = none

-- A loop over a list in which every round gives a value, or panics.
unfoldable pub for_each {ℓ κ} :
    {A : Type ℓ} {B : Type κ} → (A → Option B) → List A → Option (List B)
for_each f [] = some []
for_each f (a ∷ rest) = do b ← f a; bs ← for_each f rest; some (b ∷ bs)

-- `xs[i]`
unfoldable pub index {ℓ} : {A : Type ℓ} → List A → ℕ → Option A
index [] i = none
index (x ∷ xs) zero = some x
index (x ∷ xs) (suc i) = index xs i

abbrev pub shifted : ℕ → Option ℕ → Option ℕ
shifted n none = none
shifted n (some i) = some (n + i)

-- `strings.Index(s, c)` for one character, in bytes
unfoldable pub first_index : Char → String → Option ℕ
first_index c String.[] = none
first_index c (String.◌∷◌ d s) =
    let later = shifted (len_utf8 d) (first_index c s) in if code d == code c then some 0 else later

abbrev pub or_here : Option ℕ → Option ℕ → Option ℕ
or_here (some i) here = some i
or_here none here = here

-- `strings.LastIndex(s, c)` for one character, in bytes
unfoldable pub last_index : Char → String → Option ℕ
last_index c String.[] = none
last_index c (String.◌∷◌ d s) =
    or_here (shifted (len_utf8 d) (last_index c s)) (if code d == code c then some 0 else none)

-- `s[a:b]`
abbrev pub substring : String → ℕ → ℕ → Option String
substring s a b = if leb a b then (if leb b (len s) then some (slice s a b) else none) else none
