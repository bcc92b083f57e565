-- ===== src/Base/Decimal.antt =====
-- Decimal output: the `%d`, `%lu` and `%02d` conversions of `printf`, and `atoi` on what they
-- write.
use Prim.Native.Nat.{ℕ, zero, suc, ◌+◌, ◌-◌, ◌/◌, ◌%◌, ◌^◌, ◌≤◌, ◌<◌}
use mathlib.Core.Path.{◌≡◌}
use mathlib.Core.Logic.{inl, inr}
use mathlib.Core.List.{[], ◌∷◌, ◌++◌}
use native.Mathlib.Omega.{arith}
use native.Mathlib.Nat.{pow-suc}
use rpi_tcp_listener.Base.Tests.{ltb, if◌then◌else◌, Bool-cases}
use rpi_tcp_listener.Base.Lists.{length, replicate, All}
use rpi_tcp_listener.Base.Int.{ℤ, pos, negsuc, int_max}
use rpi_tcp_listener.Base.Text.{Bytes, digits_value, atoi}

-- The digits of `n` in front of `out`. A number above 9 loses a digit a round, so `n` rounds are
-- enough.
unfoldable pub dec_digits : ℕ → ℕ → Bytes → Bytes
dec_digits zero n out = out
dec_digits (suc f) n out =
    let rest = dec_digits f (n / 10) ((b'0' + n % 10) ∷ out) in
    if ltb n 10 then (b'0' + n % 10) ∷ out else rest

-- `%lu`.
unfoldable pub print_nat : ℕ → Bytes
unfolding dec_digits
print_nat n = dec_digits (suc n) n []

-- `%d`.
unfoldable pub print_int : ℤ → Bytes
unfolding print_nat
print_int (pos n) = print_nat n
print_int (negsuc n) = b'-' ∷ print_nat (suc n)

-- `%0<w>d`: zeros on the left, behind a sign, up to the width.
unfoldable pub pad_int : ℕ → ℤ → Bytes
unfolding print_nat
pad_int w (pos n) = replicate (w - length (print_nat n)) b'0' ++ print_nat n
pad_int w (negsuc n) =
    b'-' ∷ (replicate (w - 1 - length (print_nat (suc n))) b'0' ++ print_nat (suc n))

abbrev pub IsDigit : ℕ → Type 0
IsDigit c = (b'0' ≤ c) × (c ≤ b'9')

digits_value-dec_digits :
    (f n : ℕ) (out : Bytes) → n < f → digits_value 0 (dec_digits f n out) ≡ digits_value n out
unfolding dec_digits
digits_value-dec_digits zero n out h = absurd (omega arith)
digits_value-dec_digits (suc f) n out h =
    ground (arith, digits_value-dec_digits f (n / 10) ((b'0' + n % 10) ∷ out))

dec_digits-head :
    (f n : ℕ) (out : Bytes) → (c : ℕ) × (s : Bytes) × (dec_digits (suc f) n out ≡ c ∷ s) × IsDigit c
unfolding dec_digits
dec_digits-head zero n out = elim (Bool-cases (ltb n 10)) [
  | inl e ↦ (b'0' + n % 10, out, rw e, omega arith)
  | inr e ↦ (b'0' + n % 10, out, rw e, omega arith)
]
dec_digits-head (suc f) n out = elim (Bool-cases (ltb n 10)) [
  | inl e ↦ (b'0' + n % 10, out, rw e, omega arith)
  | inr e ↦
      let (c, s, made, digit) = dec_digits-head f (n / 10) ((b'0' + n % 10) ∷ out) in
      (c, s, rw e made, digit)
]

dec_digits-IsDigit : (f n : ℕ) (out : Bytes) → All IsDigit out → All IsDigit (dec_digits f n out)
unfolding dec_digits
dec_digits-IsDigit zero n out h = h
dec_digits-IsDigit (suc f) n out h =
    ground (arith, dec_digits-IsDigit f (n / 10) ((b'0' + n % 10) ∷ out))

pub print_nat-IsDigit : (n : ℕ) → All IsDigit (print_nat n)
unfolding print_nat
print_nat-IsDigit n = dec_digits-IsDigit (suc n) n [] tt

pub digits_value-print_nat : (n : ℕ) → digits_value 0 (print_nat n) ≡ n
unfolding print_nat
digits_value-print_nat n = digits_value-dec_digits (suc n) n [] (omega arith)

atoi-digit :
    (c : ℕ) (s : Bytes)
    → IsDigit c
    → digits_value 0 (c ∷ s) ≤ int_max
    → atoi (c ∷ s) ≡ pos (digits_value 0 (c ∷ s))
unfolding atoi
atoi-digit c s d h = ground arith

-- `atoi` reads back what `%lu` wrote.
pub atoi-print_nat : (n : ℕ) → n ≤ int_max → atoi (print_nat n) ≡ pos n
unfolding print_nat
atoi-print_nat n h =
    let (c, s, made, digit) = dec_digits-head n n [] in
    let value : digits_value 0 (c ∷ s) ≡ n = rw made at (digits_value-print_nat n) in
    rw made (rw (atoi-digit c s digit (omega (arith, value)), value))

-- A number below 10 ^ k has at most k digits.
length-dec_digits :
    (k f n : ℕ) (out : Bytes) → n < 10 ^ suc k → length (dec_digits f n out) ≤ suc k + length out
unfolding dec_digits
length-dec_digits k zero n out h = omega arith
length-dec_digits zero (suc f) n out h = ground arith
length-dec_digits (suc k) (suc f) n out h =
    ground (arith, pow-suc 10 (suc k), length-dec_digits k f (n / 10) ((b'0' + n % 10) ∷ out))

pub length-print_nat : (k n : ℕ) → n < 10 ^ suc k → length (print_nat n) ≤ suc k
unfolding print_nat
length-print_nat k n h = omega (arith, length-dec_digits k (suc n) n [] h)
