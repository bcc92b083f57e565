-- ===== src/Logger/Sets.antt =====
-- The order of `std::string` and the ascending lists that stand for `std::set<std::string>`.
use rpi_tcp_listener.Base.{
  suc, ◌≡◌, refl, Bool, true, false, List, [], ◌∷◌, arith, length, All, if◌then◌else◌,
}
use rpi_tcp_listener.Base.Text.{Bytes, str_eq, str_eq→eq}
use rpi_tcp_listener.Logger.Dir.{bytes_lt, set_insert}

pub bytes_lt_irrefl : (xs : Bytes) → bytes_lt xs xs ≡ false
unfolding bytes_lt
bytes_lt_irrefl [] = refl
bytes_lt_irrefl (x ∷ xs) = ground (arith, bytes_lt_irrefl xs)

pub bytes_lt_trans :
    (xs ys zs : Bytes) → bytes_lt xs ys ≡ true → bytes_lt ys zs ≡ true → bytes_lt xs zs ≡ true
unfolding bytes_lt
bytes_lt_trans [] [] zs h k = cc
bytes_lt_trans [] (y ∷ ys) [] h k = cc
bytes_lt_trans [] (y ∷ ys) (z ∷ zs) h k = refl
bytes_lt_trans (x ∷ xs) [] zs h k = cc
bytes_lt_trans (x ∷ xs) (y ∷ ys) [] h k = cc
bytes_lt_trans (x ∷ xs) (y ∷ ys) (z ∷ zs) h k = ground (arith, bytes_lt_trans xs ys zs)

bytes_lt_total :
    (xs ys : Bytes) → str_eq xs ys ≡ false → bytes_lt xs ys ≡ false → bytes_lt ys xs ≡ true
unfolding bytes_lt
bytes_lt_total [] [] h k = cc
bytes_lt_total [] (y ∷ ys) h k = cc
bytes_lt_total (x ∷ xs) [] h k = refl
bytes_lt_total (x ∷ xs) (y ∷ ys) h k = ground (arith, bytes_lt_total xs ys)

abbrev pub Above : Bytes → List Bytes → Type 0
Above x = All (λ y. bytes_lt x y ≡ true)

abbrev pub IsAscending : List Bytes → Type 0
IsAscending [] = Unit {0}
IsAscending (x ∷ s) = Above x s × IsAscending s

abbrev pub mem : Bytes → List Bytes → Bool
mem x [] = false
mem x (y ∷ s) = let rest = mem x s in if str_eq x y then true else rest

Above-trans : (x y : Bytes) (s : List Bytes) → bytes_lt x y ≡ true → Above y s → Above x s
Above-trans x y [] h a = tt
Above-trans x y (z ∷ s) h (a, rs) = (bytes_lt_trans x y z h a, Above-trans x y s h rs)

pub Above-mem : (x : Bytes) (s : List Bytes) → Above x s → mem x s ≡ false
Above-mem x [] a = refl
Above-mem x (y ∷ s) (a, rs) = ground (arith, str_eq→eq x y, bytes_lt_irrefl x, Above-mem x s rs)

pub Above-lt : (r q : Bytes) (ps : List Bytes) → Above r ps → mem q ps ≡ true → bytes_lt r q ≡ true
Above-lt r q [] a m = cc
Above-lt r q (x ∷ ps) (a, rs) m = ground (arith, str_eq→eq q x, Above-lt r q ps rs)

Above-insert :
    (z x : Bytes) (s : List Bytes) → bytes_lt z x ≡ true → Above z s → Above z (set_insert x s)
unfolding set_insert
Above-insert z x [] h a = (h, tt)
Above-insert z x (y ∷ s) h (a, rs) = ground (arith, Above-insert z x s h rs)

pub set_insert-IsAscending :
    (x : Bytes) (s : List Bytes) → IsAscending s → IsAscending (set_insert x s)
unfolding set_insert
set_insert-IsAscending x [] a = (tt, tt)
set_insert-IsAscending x (y ∷ s) (a, rs) = ground (
  arith,
  bytes_lt_total x y,
  Above-trans x y s,
  Above-insert y x s,
  set_insert-IsAscending x s rs,
)

pub length-set_insert :
    (x : Bytes) (s : List Bytes)
    → IsAscending s
    → mem x s ≡ false
    → length (set_insert x s) ≡ suc (length s)
unfolding set_insert
length-set_insert x [] a h = refl
length-set_insert x (y ∷ s) (a, rs) h = ground (arith, length-set_insert x s rs)

str_eq_sub : (q x y : Bytes) → str_eq x y ≡ true → str_eq q y ≡ str_eq q x
str_eq_sub q x y h = ground (arith, str_eq→eq x y)

pub mem-set_insert :
    (q x : Bytes) (s : List Bytes) → mem q (set_insert x s) ≡ (if str_eq q x then true else mem q s)
unfolding set_insert
mem-set_insert q x [] = refl
mem-set_insert q x (y ∷ s) = ground (arith, str_eq_sub q x y, mem-set_insert q x s)
