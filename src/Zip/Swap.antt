-- ===== src/Zip/Swap.antt =====
-- The loops over blocks against their specification: the bytes of each pair are swapped, and an odd
-- last byte stays.
use native.Mathlib.Nat.{le_refl}
use mathlib.Core.Path.{ap₂}
use native.Mathlib.Decide.{dec_lt}
use rpi_tcp_listener.Base.{
  ℕ, zero, suc, ◌+◌, ◌-◌, ◌%◌, ◌≤◌, ◌<◌, ◌≡◌, refl, sym, ap, ◌∙◌, inl, inr, ◌≡⟨◌⟩◌, ◌∎, true, false,
  ◌&&◌, [], ◌∷◌, ◌++◌, arith, length, length-take, length-drop, take, drop, take-append-drop,
  take-append, take_of_le, drop_of_le, append_assoc, append-nil, get_or, ◌==◌, if◌then◌else◌,
  Bool-cases, ==_iff,
}
use rpi_tcp_listener.Base.Int.{size_mod}
use rpi_tcp_listener.Base.Text.{Bytes}
use rpi_tcp_listener.Zip.{
  Vars, is_odd, file_block, reverse_pairs, zip_block, zip_loop, zip_file, read_size,
}

-- The specification, with no blocks and no buffers.
abbrev pub swap_pairs : Bytes → Bytes
swap_pairs [] = []
swap_pairs (a ∷ []) = a ∷ []
swap_pairs (a ∷ b ∷ s) = b ∷ a ∷ swap_pairs s

pub swap_pairs-swap_pairs : (s : Bytes) → swap_pairs (swap_pairs s) ≡ s
swap_pairs-swap_pairs [] = refl
swap_pairs-swap_pairs (a ∷ []) = refl
swap_pairs-swap_pairs (a ∷ b ∷ s) = ap (λ t. a ∷ b ∷ t) (swap_pairs-swap_pairs s)

pub length-swap_pairs : (s : Bytes) → length (swap_pairs s) ≡ length s
length-swap_pairs [] = refl
length-swap_pairs (a ∷ []) = refl
length-swap_pairs (a ∷ b ∷ s) = ap (λ n. suc (suc n)) (length-swap_pairs s)

-- A text of even length is all pairs.
even-reverse_pairs :
    (s : Bytes)
    → length s % 2 ≡ 0
    → (reverse_pairs s ≡ swap_pairs s) × (length (reverse_pairs s) ≡ length s)
unfolding reverse_pairs
even-reverse_pairs [] h = (refl, refl)
even-reverse_pairs (a ∷ []) h = absurd (omega arith)
even-reverse_pairs (a ∷ b ∷ s) h =
    let (same, size) = even-reverse_pairs s (omega arith) in
    (ap (λ t. b ∷ a ∷ t) same, ap (λ n. suc (suc n)) size)

odd-reverse_pairs :
    (s : Bytes) (k : ℕ)
    → length s ≡ suc k
    → k % 2 ≡ 0
    → (reverse_pairs (take k s) ++ (get_or s k 0 ∷ []) ≡ swap_pairs s)
      × (length (reverse_pairs (take k s)) ≡ k)
unfolding reverse_pairs
odd-reverse_pairs [] k h e = absurd (omega arith)
odd-reverse_pairs (a ∷ []) zero h e = (refl, refl)
odd-reverse_pairs (a ∷ []) (suc k) h e = absurd (omega arith)
odd-reverse_pairs (a ∷ b ∷ s) zero h e = absurd (omega arith)
odd-reverse_pairs (a ∷ b ∷ s) (suc zero) h e = absurd (omega arith)
odd-reverse_pairs (a ∷ b ∷ s) (suc (suc k)) h e =
    let (same, size) = odd-reverse_pairs s k (omega arith) (omega arith) in
    (ap (λ t. b ∷ a ∷ t) same, ap (λ n. suc (suc n)) size)

swap_pairs-append :
    (s t : Bytes) → length s % 2 ≡ 0 → swap_pairs (s ++ t) ≡ swap_pairs s ++ swap_pairs t
swap_pairs-append [] t h = refl
swap_pairs-append (a ∷ []) t h = absurd (omega arith)
swap_pairs-append (a ∷ b ∷ s) t h = ap (λ u. b ∷ a ∷ u) (swap_pairs-append s t (omega arith))

-- What stands in the destination once the loop has ended.
abbrev pub final : ℕ → Vars → Bytes
final size_total v = if is_odd size_total then v.out ++ (v.odd ∷ []) else v.out

take_written : (w : Bytes) (n : ℕ) (old : Bytes) → length w ≡ n → take n (w ++ old) ≡ w
take_written w n old h = rw (← h) (take-append w old)

module _ (size_total : ℕ) where
  -- A block of even size is written whole.
  zip_block_even :
      (v : Vars) (block : Bytes)
      → length block % 2 ≡ 0
      → v.total + length block < size_mod
      → let w = zip_block size_total v block in
        (w.out ≡ v.out ++ swap_pairs block) × (w.odd ≡ v.odd) × (w.total ≡ v.total + length block)
  unfolding zip_block
  zip_block_even v block even word =
      let whole : is_odd size_total
            && ((v.total + length block) % size_mod == size_total && is_odd (length block))
          ≡ false =
        ground arith in
      let (same, size) = even-reverse_pairs block even in
      rw (whole, take_of_le (length block) block (le_refl _))
        (
          ap (◌++◌ v.out) (
              ap
                (λ n.
                  take n (reverse_pairs block ++ drop (length (reverse_pairs block)) v.reversed))
                (sym size)
              ∙ take-append (reverse_pairs block) _
              ∙ same),
          refl,
          omega arith,
        )

  -- The last block of a file of odd size keeps its last byte for the end.
  zip_block_odd :
      (v : Vars) (block : Bytes) (k : ℕ)
      → length block ≡ suc k
      → k % 2 ≡ 0
      → size_total % 2 ≡ 1
      → v.total + length block ≡ size_total
      → size_total < size_mod
      → let w = zip_block size_total v block in w.out ++ (w.odd ∷ []) ≡ v.out ++ swap_pairs block
  unfolding zip_block
  zip_block_odd v block k len even odd last word =
      let short : is_odd size_total
            && ((v.total + length block) % size_mod == size_total && is_odd (length block))
          ≡ true =
        ground arith in
      let size : length block - 1 ≡ k = omega arith in
      let (same, pairs) = odd-reverse_pairs block k len even in
      rw (short, size)
        (rw (
          take_written (reverse_pairs (take k block)) k
              (drop (length (reverse_pairs (take k block))) v.reversed) pairs,
          append_assoc v.out (reverse_pairs (take k block)) (get_or block k 0 ∷ []),
          same,
        ))

  zip_loop-nil : (fuel : ℕ) (v : Vars) → zip_loop fuel size_total v [] ≡ v
  unfolding zip_loop
  zip_loop-nil zero v = refl
  zip_loop-nil (suc fuel) v = refl

  final-zip_block :
      (v : Vars) (c : ℕ) (s : Bytes)
      → v.total + suc (length s) ≡ size_total
      → v.total % 2 ≡ 0
      → size_total < size_mod
      → final size_total (zip_block size_total v (c ∷ s)) ≡ v.out ++ swap_pairs (c ∷ s)
  final-zip_block v c s sum even word = elim (Bool-cases (is_odd size_total)) [
    | inl odd ↦
        let o = (==_iff (size_total % 2) 1).0 odd in
        rw odd (zip_block_odd v (c ∷ s) (length s) refl (omega arith) o sum word)
    | inr flat ↦
        let o : size_total % 2 ≡ 0 = ground arith in
        rw flat ((zip_block_even v (c ∷ s) (omega arith) (omega arith)).0)
  ]

  -- The loop, from any even offset to the end of the file.
  final-zip_loop :
      (fuel : ℕ) (s : Bytes) (v : Vars)
      → length s ≤ fuel
      → v.total + length s ≡ size_total
      → v.total % 2 ≡ 0
      → size_total < size_mod
      → final size_total (zip_loop fuel size_total v s) ≡ v.out ++ swap_pairs s
  unfolding zip_loop
  final-zip_loop zero [] v enough sum even word = rw append-nil (ground arith)
  final-zip_loop zero (c ∷ s) v enough sum even word = absurd (omega arith)
  final-zip_loop (suc fuel) [] v enough sum even word = rw append-nil (ground arith)
  final-zip_loop (suc fuel) (c ∷ s) v enough sum even word =
      let all : Bytes = c ∷ s in
      let block = take file_block all in
      let rest = drop file_block all in
      let size = length-take file_block all in
      let left = length-drop file_block all in
      elim (dec_lt file_block (length all)) [
        | yes more ↦
            let (out, _, total) =
              zip_block_even v block (omega (arith, size)) (omega (arith, size)) in
            let w = zip_block size_total v block in
            final size_total (zip_loop fuel size_total w rest)
            ≡⟨ final-zip_loop fuel rest w (omega (arith, left)) (omega (arith, left, size, total))
                (omega (arith, size, total)) word ⟩
              w.out ++ swap_pairs rest
            ≡⟨ rw (out, append_assoc)
                (ap (◌++◌ v.out) (sym (swap_pairs-append block rest (omega (arith, size))))) ⟩
              v.out ++ swap_pairs (block ++ rest)
            ≡⟨ ap (λ t. v.out ++ swap_pairs t) (take-append-drop file_block all) ⟩
              v.out ++ swap_pairs all ∎
        | no last ↦
            let whole = take_of_le file_block all (omega arith) in
            let nothing = drop_of_le file_block all (omega arith) in
            final size_total (zip_loop fuel size_total (zip_block size_total v block) rest)
            ≡⟨ ap₂ (λ b r. final size_total (zip_loop fuel size_total (zip_block size_total v b) r))
                whole nothing ⟩
              final size_total (zip_loop fuel size_total (zip_block size_total v all) [])
            ≡⟨ ap (final size_total) (zip_loop-nil fuel (zip_block size_total v all)) ⟩
              final size_total (zip_block size_total v all)
            ≡⟨ final-zip_block v c s sum even word ⟩ v.out ++ swap_pairs all ∎
      ]

-- For a source of less than 2 ^ 32 bytes both functions write its bytes with each pair swapped,
-- the last byte of an odd number of them as it is, whatever their buffers held.
pub zip_file_lem :
    (reversed : Bytes) (odd : ℕ) (content : Bytes)
    → length content < size_mod
    → zip_file (length content) reversed odd content ≡ swap_pairs content
unfolding zip_file
zip_file_lem reversed odd content word =
    final-zip_loop (length content) (length content) content
      (record { reversed = reversed; odd = odd; total = 0; out = [] }) (le_refl _) (omega arith)
      refl word

pub read_size_lem :
    (fuel n : ℕ) (s : Bytes)
    → length s ≤ fuel
    → n + length s < size_mod
    → read_size fuel n s ≡ n + length s
unfolding read_size
read_size_lem zero n [] h w = omega arith
read_size_lem zero n (c ∷ s) h w = absurd (omega arith)
read_size_lem (suc fuel) n [] h w = omega arith
read_size_lem (suc fuel) n (c ∷ s) h w =
    let all : Bytes = c ∷ s in
    let block = take file_block all in
    let rest = drop file_block all in
    let size = length-take file_block all in
    let left = length-drop file_block all in
    let sum : (n + length block) % size_mod ≡ n + length block = omega (arith, size) in
    let rec' : read_size fuel ((n + length block) % size_mod) rest ≡ n + length all = rw sum (
      read_size_lem fuel (n + length block) rest (omega (arith, left)) (omega (arith, left, size))
      ∙ omega (arith, left, size)) in
    rec'
