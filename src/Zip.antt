-- ===== src/Zip.antt =====
-- src/utilities/utilities/zip.{h,cpp}: the encoding of sound files, which swaps the bytes of each
-- pair, block by block.
--
-- A file is the list of its bytes; `fread` gives the next 1024 of them, or what is left. The two
-- arrays that the code does not initialise are the parameters `reversed` and `odd`.
pub mod Swap
pub mod RoundTrip
mod Tests
use rpi_tcp_listener.Base.{
  ℕ, zero, suc, ◌+◌, ◌-◌, ◌%◌, Bool, true, false, ◌&&◌, Option, none, some, List, [], ◌∷◌, ◌++◌,
  length, take, drop, get_or, ◌==◌, if◌then◌else◌,
}
use rpi_tcp_listener.Base.Int.{size_mod}
use rpi_tcp_listener.Base.Text.{Bytes, str_eq}
use rpi_tcp_listener.Base.Outcome.{Outcome, done, fault, null_file}
use rpi_tcp_listener.Files.{Files, write}

pub data ZipStatus : Type 0 where
  ok same_src_dst file_not_exists : ZipStatus

abbrev pub file_block : ℕ
file_block = 1024

abbrev pub is_odd : ℕ → Bool
is_odd n = n % 2 == 1

-- `buf_reversed`, `buf_odd_char[0]`, `size_read_total` and the bytes written to the destination.
pub record Vars : Type 0 where
  pub reversed : Bytes
  pub odd : ℕ
  pub total : ℕ
  pub out : Bytes

-- What the `for` loop writes into `buf_reversed`: the pairs of the block, each turned round.
unfoldable pub reverse_pairs : Bytes → Bytes
reverse_pairs [] = []
reverse_pairs (a ∷ []) = []
reverse_pairs (a ∷ b ∷ s) = b ∷ a ∷ reverse_pairs s

-- The body of the `while` loop, for a block that `fread` gave.
unfoldable pub zip_block : ℕ → Vars → Bytes → Vars
unfolding reverse_pairs
zip_block size_total v block =
    let n = length block in
    let total = (v.total + n) % size_mod in
    let last_odd = is_odd size_total && (total == size_total && is_odd n) in
    let size_read = if last_odd then n - 1 else n in
    let written = reverse_pairs (take size_read block) in
    let reversed = written ++ drop (length written) v.reversed in
    record {
      reversed = reversed;
      odd = if last_odd then get_or block (n - 1) 0 else v.odd;
      total = total;
      out = v.out ++ take size_read reversed;
    }

-- The `while` loop; a round takes at least a byte, so the length of the file is fuel enough.
unfoldable pub zip_loop : ℕ → ℕ → Vars → Bytes → Vars
unfolding zip_block
zip_loop zero size_total v [] = v
zip_loop zero size_total v (c ∷ s) = v
zip_loop (suc fuel) size_total v [] = v
zip_loop (suc fuel) size_total v (c ∷ s) =
    zip_loop fuel size_total (zip_block size_total v (take file_block (c ∷ s)))
      (drop file_block (c ∷ s))

-- From the size of the file to the end: the bytes written.
unfoldable pub zip_file : ℕ → Bytes → ℕ → Bytes → Bytes
unfolding zip_loop
zip_file size_total reversed odd content =
    let start : Vars = record { reversed = reversed; odd = odd; total = 0; out = [] } in
    let v = zip_loop (length content) size_total start content in
    if is_odd size_total then v.out ++ (v.odd ∷ []) else v.out

-- `ZipCompress` first reads the file once to add up its size.
unfoldable pub read_size : ℕ → ℕ → Bytes → ℕ
read_size zero size_total s = size_total
read_size (suc fuel) size_total [] = size_total
read_size (suc fuel) size_total (c ∷ s) =
    read_size fuel ((size_total + length (take file_block (c ∷ s))) % size_mod)
      (drop file_block (c ∷ s))

module _ (reversed : Bytes) (odd : ℕ) where
  -- What both functions do with the names: `encode` is the rest, from the source's contents.
  abbrev with_files : (Bytes → Bytes) → Files → Bytes → Bytes → Outcome (ZipStatus × Files)
  with_files encode fs source destination =
      if str_eq source destination then done (same_src_dst, fs) else elim (fs.read source) [
        | none ↦ done (file_not_exists, fs)
        | some content ↦
            if fs.writable destination
            then done (ok, write fs destination (encode content))
            else fault null_file
      ]

  -- `ZipUncompress`: `tellg` at the end of the file gives its size.
  unfoldable pub zip_uncompress : Files → Bytes → Bytes → Outcome (ZipStatus × Files)
  unfolding zip_file
  zip_uncompress = with_files λ content. zip_file (length content % size_mod) reversed odd content

  -- `ZipCompress`.
  unfoldable pub zip_compress : Files → Bytes → Bytes → Outcome (ZipStatus × Files)
  unfolding zip_file read_size
  zip_compress =
      with_files λ content. zip_file (read_size (length content) 0 content) reversed odd content
