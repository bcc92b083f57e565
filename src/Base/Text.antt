-- ===== src/Base/Text.antt =====
-- The C library's view of text: a string is the list of its bytes, with no terminator. `strcmp`,
-- `isspace`, `isdigit`, `atoi` and the `%d`, `%02d`, `%lu` conversions of `printf`.
use Prim.Native.Char.{code}
use Prim.Native.String.{String}
use Prim.Native.Nat.{ℕ, ◌+◌, ◌-◌, ◌*◌, min}
use mathlib.Core.Path.{◌≡◌, refl}
use mathlib.Core.Bool.{Bool, true, false, ◌&&◌, ◌||◌}
use mathlib.Core.List.{List, [], ◌∷◌}
use native.Mathlib.Omega.{arith}
use rpi_tcp_listener.Base.Tests.{leb, ◌==◌, if◌then◌else◌}
use rpi_tcp_listener.Base.Int.{ℤ, pos, neg, int_max}

abbrev pub Bytes : Type 0
Bytes = List ℕ

abbrev pub codes : String → Bytes
codes String.[] = []
codes (String.◌∷◌ c s) = code c ∷ codes s

-- `0 == strcmp(a, b)`, for texts with no zero byte inside.
abbrev pub str_eq : Bytes → Bytes → Bool
str_eq [] [] = true
str_eq [] (y ∷ ys) = false
str_eq (x ∷ xs) [] = false
str_eq (x ∷ xs) (y ∷ ys) = x == y && str_eq xs ys

pub str_eq_refl : (xs : Bytes) → str_eq xs xs ≡ true
str_eq_refl [] = refl
str_eq_refl (x ∷ xs) = ground (arith, str_eq_refl xs)

pub str_eq→eq : (xs ys : Bytes) → str_eq xs ys ≡ true → xs ≡ ys
str_eq→eq [] [] h = refl
str_eq→eq [] (y ∷ ys) h = cc
str_eq→eq (x ∷ xs) [] h = cc
str_eq→eq (x ∷ xs) (y ∷ ys) h = ground (arith, str_eq→eq xs ys)

abbrev pub is_digit : ℕ → Bool
is_digit c = leb b'0' c && leb c b'9'

-- `isspace` in the C locale: space, \t, \n, \v, \f, \r.
abbrev pub is_space : ℕ → Bool
is_space c = c == 32 || (leb 9 c && leb c 13)

-- The digits at the head of a text, read behind the number `n`.
abbrev pub digits_value : ℕ → Bytes → ℕ
digits_value n [] = n
digits_value n (c ∷ s) =
    let rest = digits_value (n * 10 + (c - b'0')) s in if is_digit c then rest else n

-- `strtol` stores the nearest number in range; `long` has the width of `int` on the target.
abbrev clamp_pos : ℕ → ℤ
clamp_pos n = pos (min n int_max)

abbrev clamp_neg : ℕ → ℤ
clamp_neg n = neg (min n (int_max + 1))

abbrev atoi_signed : Bytes → ℤ
atoi_signed [] = pos 0
atoi_signed (c ∷ s) =
    if c == b'-'
    then clamp_neg (digits_value 0 s)
    else if c == b'+'
    then clamp_pos (digits_value 0 s)
    else clamp_pos (digits_value 0 (c ∷ s))

-- `atoi`: white space, a sign, digits; what follows is ignored.
unfoldable pub atoi : Bytes → ℤ
atoi [] = pos 0
atoi (c ∷ s) = let rest = atoi s in if is_space c then rest else atoi_signed (c ∷ s)
