-- ===== src/Time/Digits.antt =====
-- The numbers of two and of four digits that `%02d` and `%04d` print, read back by `atoi`.
use rpi_tcp_listener.Base.{
  ℕ, zero, suc, pred, ◌+◌, ◌/◌, ◌%◌, ◌≤◌, ◌<◌, ◌≡◌, refl, inl, inr, true, [], ◌∷◌, arith, lt-cases,
  ◌∙◌,
}
use rpi_tcp_listener.Base.Int.{pos}
use rpi_tcp_listener.Base.Text.{Bytes, is_digit, atoi}
use rpi_tcp_listener.Base.Decimal.{print_nat, dec_digits, pad_int}

digits-small : (f n : ℕ) (out : Bytes) → n < f → n < 10 → dec_digits f n out ≡ (b'0' + n) ∷ out
unfolding dec_digits
digits-small zero n out h k = absurd (omega arith)
digits-small (suc f) n out h k = ground arith

digits-large :
    (f n : ℕ) (out : Bytes)
    → n < f
    → 10 ≤ n
    → dec_digits f n out ≡ dec_digits (pred f) (n / 10) ((b'0' + n % 10) ∷ out)
unfolding dec_digits
digits-large zero n out h k = absurd (omega arith)
digits-large (suc f) n out h k = ground arith

-- The two digits of a number, and the four.
abbrev pub two_digits : ℕ → Bytes
two_digits n = (b'0' + n / 10) ∷ (b'0' + n % 10) ∷ []

abbrev pub four_digits : ℕ → Bytes
four_digits n =
    (b'0' + n / 1000) ∷ (b'0' + n / 100 % 10) ∷ (b'0' + n / 10 % 10) ∷ (b'0' + n % 10) ∷ []

print-one : (n : ℕ) → n < 10 → print_nat n ≡ (b'0' + n) ∷ []
unfolding print_nat
print-one n h = digits-small (suc n) n [] (omega arith) h

print-two : (n : ℕ) → 10 ≤ n → n < 100 → print_nat n ≡ (b'0' + n / 10) ∷ (b'0' + n % 10) ∷ []
unfolding print_nat
print-two n h k =
    digits-large (suc n) n [] (omega arith) h
    ∙ digits-small n (n / 10) ((b'0' + n % 10) ∷ []) (omega arith) (omega arith)

print-three :
    (n : ℕ)
    → 100 ≤ n
    → n < 1000
    → print_nat n ≡ (b'0' + n / 100) ∷ (b'0' + n / 10 % 10) ∷ (b'0' + n % 10) ∷ []
unfolding print_nat
print-three n h k =
    digits-large (suc n) n [] (omega arith) (omega arith)
    ∙ digits-large n (n / 10) ((b'0' + n % 10) ∷ []) (omega arith) (omega arith)
    ∙ digits-small (pred n) (n / 10 / 10) ((b'0' + n / 10 % 10) ∷ (b'0' + n % 10) ∷ [])
        (omega arith) (omega arith)
    ∙ ground arith

pub print-four : (n : ℕ) → 1000 ≤ n → n < 10000 → print_nat n ≡ four_digits n
unfolding print_nat
print-four n h k =
    digits-large (suc n) n [] (omega arith) (omega arith)
    ∙ digits-large n (n / 10) ((b'0' + n % 10) ∷ []) (omega arith) (omega arith)
    ∙ digits-large (pred n) (n / 10 / 10) ((b'0' + n / 10 % 10) ∷ (b'0' + n % 10) ∷ [])
        (omega arith) (omega arith)
    ∙ digits-small (pred (pred n)) (n / 10 / 10 / 10)
        ((b'0' + n / 10 / 10 % 10) ∷ (b'0' + n / 10 % 10) ∷ (b'0' + n % 10) ∷ []) (omega arith)
        (omega arith)
    ∙ ground arith

pub pad-two : (n : ℕ) → n < 100 → pad_int 2 (pos n) ≡ two_digits n
unfolding pad_int
pad-two n h = elim (lt-cases n 10) [
  | inl e ↦ (let p = print-one n e in rw p (ground arith))
  | inr e ↦ (let p = print-two n e h in rw p refl)
]

pad-four_high : (n : ℕ) → 100 ≤ n → n < 10000 → pad_int 4 (pos n) ≡ four_digits n
unfolding pad_int
pad-four_high n h k = elim (lt-cases n 1000) [
  | inl e ↦ (let p = print-three n h e in rw p (ground arith))
  | inr e ↦ (let p = print-four n e k in rw p refl)
]

pad-four_low : (n : ℕ) → n < 100 → pad_int 4 (pos n) ≡ four_digits n
unfolding pad_int
pad-four_low n h = elim (lt-cases n 10) [
  | inl e ↦ (let p = print-one n e in rw p (ground arith))
  | inr e ↦ (let p = print-two n e h in rw p (ground arith))
]

pub pad-four : (n : ℕ) → n < 10000 → pad_int 4 (pos n) ≡ four_digits n
pad-four n h = elim (lt-cases n 100) [ inl e ↦ pad-four_low n e | inr e ↦ pad-four_high n e h ]

pub atoi-two : (n : ℕ) → n < 100 → atoi (two_digits n) ≡ pos n
unfolding atoi
atoi-two n h = ground arith

pub atoi-four : (n : ℕ) → n < 10000 → atoi (four_digits n) ≡ pos n
unfolding atoi
atoi-four n h = ground arith

pub is_digit-mod : (n : ℕ) → is_digit (b'0' + n % 10) ≡ true
is_digit-mod n = ground arith

pub is_digit-small : (n : ℕ) → n < 10 → is_digit (b'0' + n) ≡ true
is_digit-small n h = ground arith
