-- ===== src/Prelude/Decimal/RoundTrip.antt =====
-- A printed integer is parsed to itself.
use Prim.Native.Char.{code}
use board_old.Prelude.{ℕ, zero, suc, ◌+◌, ◌/◌, ◌%◌, ◌≤◌, ◌<◌, ◌≡◌, refl, ◌∙◌, inl, inr}
use board_old.Prelude.{String, Bool, true, false, none, some, arith, Bool-cases, ◌==◌}
use board_old.Prelude.Int.{ℤ, pos, negsuc}
use board_old.Prelude.Decimal.{
  digit, print_digits, itoa, scan, atoi, number, max_uint64, InInt64, signed,
}

code-digit : (d : ℕ) → d < 10 → code (digit d) ≡ 48 + d
unfolding digit
code-digit zero h = refl
code-digit (suc zero) h = refl
code-digit (suc (suc zero)) h = refl
code-digit (suc (suc (suc zero))) h = refl
code-digit (suc (suc (suc (suc zero)))) h = refl
code-digit (suc (suc (suc (suc (suc zero))))) h = refl
code-digit (suc (suc (suc (suc (suc (suc zero)))))) h = refl
code-digit (suc (suc (suc (suc (suc (suc (suc zero))))))) h = refl
code-digit (suc (suc (suc (suc (suc (suc (suc (suc zero)))))))) h = refl
code-digit (suc (suc (suc (suc (suc (suc (suc (suc (suc zero))))))))) h = refl
code-digit (suc (suc (suc (suc (suc (suc (suc (suc (suc (suc d)))))))))) h = absurd (omega arith)

-- Reading the digits of a number, whatever text follows, is going on with that number.
scan-print_digits :
    (fuel n : ℕ) (acc : String)
    → n < fuel
    → n ≤ max_uint64
    → scan 0 (print_digits fuel n acc) ≡ scan n acc
unfolding print_digits scan
scan-print_digits zero n acc h m = elim h [ ]
scan-print_digits (suc fuel) n acc h m = elim (Bool-cases (n / 10 == 0)) [
  | inl last ↦ rw last (ground (arith, code-digit (n % 10) (omega arith)))
  | inr more ↦ rw more (
      scan-print_digits fuel (n / 10) _ (ground arith) (omega arith)
      ∙ ground (arith, code-digit (n % 10) (omega arith)))
]

-- Printed digits are not empty, and do not begin with a sign.
abbrev Unsigned : String → Type 0
Unsigned String.[] = ⊥
Unsigned (String.◌∷◌ c s) = 48 ≤ code c

print_digits-Unsigned : (fuel n : ℕ) (acc : String) → n < fuel → Unsigned (print_digits fuel n acc)
unfolding print_digits
print_digits-Unsigned zero n acc h = elim h [ ]
print_digits-Unsigned (suc fuel) n acc h = elim (Bool-cases (n / 10 == 0)) [
  | inl last ↦ rw last (omega (arith, code-digit (n % 10) (omega arith)))
  | inr more ↦ rw more (print_digits-Unsigned fuel (n / 10) _ (ground arith))
]

number-Unsigned :
    (negative : Bool) (s : String) (n : ℕ)
    → Unsigned s
    → scan 0 s ≡ some n
    → number negative s ≡ signed negative n
number-Unsigned negative String.[] n u e = absurd u
number-Unsigned negative (String.◌∷◌ c s) n u e = rw (e, number)

atoi-Unsigned : (s : String) → Unsigned s → atoi s ≡ number false s
unfolding atoi
atoi-Unsigned String.[] u = absurd u
atoi-Unsigned (String.◌∷◌ c s) u = ground arith

scan-print : (n : ℕ) → n ≤ max_uint64 → scan 0 (print_digits (suc n) n "") ≡ some n
unfolding scan
scan-print n m = scan-print_digits (suc n) n "" (omega arith) m

atoi-minus : (s : String) → atoi (String.◌∷◌ "-" s) ≡ number true s
unfolding atoi
atoi-minus s = refl

-- What `Itoa` prints of a 64-bit integer, `Atoi` reads back, without an error.
pub atoi-itoa : (z : ℤ) → InInt64 z → atoi (itoa z) ≡ (z, none)
unfolding itoa
atoi-itoa (pos n) (h, _) =
    let text = print_digits (suc n) n "" in
    let u = print_digits-Unsigned (suc n) n "" (omega arith) in
    atoi-Unsigned text u
    ∙ number-Unsigned false text n u (scan-print n (omega arith))
    ∙ ground arith
atoi-itoa (negsuc n) (_, h) =
    let text = print_digits (suc (suc n)) (suc n) "" in
    let u = print_digits-Unsigned (suc (suc n)) (suc n) "" (omega arith) in
    atoi-minus text
    ∙ number-Unsigned true text (suc n) u (scan-print (suc n) (omega arith))
    ∙ ground arith
