-- ===== src/Base/Int.antt =====
-- C's signed integers over the native numbers, and their conversions to unsigned words.
use Prim.Native.Nat.{ℕ, zero, suc, ◌+◌, ◌-◌, ◌%◌, ◌^◌}
use mathlib.Core.Bool.{Bool, true}
use rpi_tcp_listener.Base.Tests.{if◌then◌else◌, ltb}

-- `negsuc n` is -(n + 1).
pub data ℤ : Type 0 where
  pos : ℕ → ℤ
  negsuc : ℕ → ℤ

-- The 32-bit words of the target: size_t and int on ARM Linux.
abbrev pub size_mod : ℕ
size_mod = 2 ^ 32

abbrev pub int_max : ℕ
int_max = 2 ^ 31 - 1

-- z - 1, z + n, z - n and -n.
abbrev pub dec : ℤ → ℤ
dec (pos zero) = negsuc 0
dec (pos (suc n)) = pos n
dec (negsuc n) = negsuc (suc n)

abbrev pub add_ℕ : ℤ → ℕ → ℤ
add_ℕ (pos m) n = pos (m + n)
add_ℕ (negsuc m) n = if ltb m n then pos (n - suc m) else negsuc (m - n)

abbrev pub sub_ℕ : ℤ → ℕ → ℤ
sub_ℕ (pos m) n = if ltb m n then negsuc (n - suc m) else pos (m - n)
sub_ℕ (negsuc m) n = negsuc (m + n)

abbrev pub neg : ℕ → ℤ
neg zero = pos 0
neg (suc n) = negsuc n

-- i < n for a natural n, and i ≤ n.
abbrev pub ltb_ℕ : ℤ → ℕ → Bool
ltb_ℕ (pos m) n = ltb m n
ltb_ℕ (negsuc m) n = true

-- Conversion to an unsigned word of `m` values: reduction modulo `m`.
abbrev pub to_word : ℕ → ℤ → ℕ
to_word m (pos n) = n % m
to_word m (negsuc n) = m - 1 - n % m

abbrev pub to_size : ℤ → ℕ
to_size = to_word size_mod

abbrev pub to_u16 : ℤ → ℕ
to_u16 = to_word (2 ^ 16)
