-- ===== src/Prelude/Decimal.antt =====
-- Go's `strconv.Itoa` and `strconv.Atoi`, on 64-bit integers.
pub mod RoundTrip
use Prim.Native.Char.{Char, code}
use Prim.Native.String
use board_old.Prelude.{ℕ, zero, suc, ◌+◌, ◌-◌, ◌*◌, ◌/◌, ◌%◌, ◌^◌, ◌≤◌, ◌<◌, ◌&&◌, ◌≡◌, refl}
use board_old.Prelude.{String, Bool, true, false, Option, none, some}
use board_old.Prelude.{ltb, leb, ◌==◌, if◌then◌else◌}
use board_old.Prelude.Int.{ℤ, pos, negsuc, pos_part, neg_part}

-- The character of a digit below ten.
pub digit : ℕ → Char
digit zero = "0"
digit (suc zero) = "1"
digit (suc (suc zero)) = "2"
digit (suc (suc (suc zero))) = "3"
digit (suc (suc (suc (suc zero)))) = "4"
digit (suc (suc (suc (suc (suc zero))))) = "5"
digit (suc (suc (suc (suc (suc (suc zero)))))) = "6"
digit (suc (suc (suc (suc (suc (suc (suc zero))))))) = "7"
digit (suc (suc (suc (suc (suc (suc (suc (suc zero)))))))) = "8"
digit (suc (suc (suc (suc (suc (suc (suc (suc (suc n))))))))) = "9"

-- The decimal digits of a number, in front of a text. Fuel above the number is enough.
pub print_digits : ℕ → ℕ → String → String
unfolding digit
print_digits zero n acc = acc
print_digits (suc fuel) n acc =
    let longer = String.◌∷◌ (digit (n % 10)) acc in
    let rest = print_digits fuel (n / 10) longer in if n / 10 == 0 then longer else rest

-- `strconv.Itoa(z)`
unfoldable pub itoa : ℤ → String
unfolding print_digits
itoa (pos n) = print_digits (suc n) n ""
itoa (negsuc n) = String.◌∷◌ "-" (print_digits (suc (suc n)) (suc n) "")

pub data NumError : Type 0 where
  syntax_error range_error : NumError

abbrev pub max_uint64 : ℕ
max_uint64 = 2 ^ 64 - 1

abbrev pub is_digit : Char → Bool
is_digit c = leb 48 (code c) && leb (code c) 57

-- The loop of `strconv.ParseUint`: what passes 64 bits ends it at the greatest value.
pub scan : ℕ → String → Option ℕ
scan n String.[] = some n
scan n (String.◌∷◌ c s) =
    let next = n * 10 + (code c - 48) in
    let rest = scan next s in
    if is_digit c then (if ltb max_uint64 next then some max_uint64 else rest) else none

-- A value and a possible error, as Go returns them.
abbrev pub Parsed : Type 0
Parsed = ℤ × Option NumError

abbrev pub signed : Bool → ℕ → Parsed
signed false n = if leb (2 ^ 63) n then (pos (2 ^ 63 - 1), some range_error) else (pos n, none)
signed true zero = (pos 0, none)
signed true (suc n) =
    if ltb (2 ^ 63) (suc n) then (negsuc (2 ^ 63 - 1), some range_error) else (negsuc n, none)

abbrev pub number : Bool → String → Parsed
number negative String.[] = (pos 0, some syntax_error)
number negative (String.◌∷◌ c s) = elim (scan 0 (String.◌∷◌ c s)) [
  | some n ↦ signed negative n
  | none ↦ (pos 0, some syntax_error)
]

-- `strconv.Atoi(s)`
unfoldable pub atoi : String → Parsed
unfolding scan
atoi String.[] = (pos 0, some syntax_error)
atoi (String.◌∷◌ c s) =
    if code c == b'-'
    then number true s
    else if code c == b'+'
    then number false s
    else number false (String.◌∷◌ c s)

-- The range of Go's `int`.
abbrev pub InInt64 : ℤ → Type 0
InInt64 z = (pos_part z < 2 ^ 63) × (neg_part z ≤ 2 ^ 63)

itoa_runs : itoa (negsuc 119) ≡ "-120"
unfolding itoa
itoa_runs = refl

atoi_runs : atoi "-120" ≡ (negsuc 119, none)
unfolding atoi
atoi_runs = refl

atoi_range : atoi "99999999999999999999x" ≡ (pos (2 ^ 63 - 1), some range_error)
unfolding atoi
atoi_range = refl
