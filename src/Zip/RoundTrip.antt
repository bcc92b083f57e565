-- ===== src/Zip/RoundTrip.antt =====
-- The two functions on files: what they answer, and that one undoes the other.
use rpi_tcp_listener.Base.{ℕ, ◌%◌, ◌<◌, ◌≡◌, ◌∙◌, true, false, some, arith, length}
use rpi_tcp_listener.Base.Int.{size_mod}
use rpi_tcp_listener.Base.Text.{Bytes, str_eq}
use rpi_tcp_listener.Base.Outcome.{done}
use rpi_tcp_listener.Files.{Files, write, read-write_self}
use rpi_tcp_listener.Zip.{ok, read_size, zip_uncompress, zip_compress}
use rpi_tcp_listener.Zip.Swap.{
  swap_pairs, swap_pairs-swap_pairs, length-swap_pairs, zip_file_lem, read_size_lem,
}

module _ (reversed : Bytes) (odd : ℕ) (fs : Files) (source destination content : Bytes) where
  -- Decoding a file that exists into another one that can be written.
  pub zip_uncompress_ok :
      str_eq source destination ≡ false
      → fs.read source ≡ some content
      → fs.writable destination ≡ true
      → length content < size_mod
      → zip_uncompress reversed odd fs source destination
        ≡ done (ok, write fs destination (swap_pairs content))
  unfolding zip_uncompress
  zip_uncompress_ok names there room word =
      let size : length content % size_mod ≡ length content = omega arith in
      rw (names, there, room, size, zip_file_lem reversed odd content word)

  pub zip_compress_ok :
      str_eq source destination ≡ false
      → fs.read source ≡ some content
      → fs.writable destination ≡ true
      → length content < size_mod
      → zip_compress reversed odd fs source destination
        ≡ done (ok, write fs destination (swap_pairs content))
  unfolding zip_compress
  zip_compress_ok names there room word =
      let size : read_size (length content) 0 content ≡ length content =
        read_size_lem (length content) 0 content (omega arith) (omega arith) ∙ omega arith in
      rw (names, there, room, size, zip_file_lem reversed odd content word)

-- A sound file of less than 2 ^ 32 bytes that is compressed into a second file, and uncompressed
-- from there into a third, each of another name than its source and writable, has its bytes back,
-- whatever the arrays of either call held before.
pub zip_uncompress-zip_compress :
    (r r' : Bytes) (o o' : ℕ) (fs : Files) (source packed unpacked content : Bytes)
    → str_eq source packed ≡ false
    → str_eq packed unpacked ≡ false
    → fs.read source ≡ some content
    → fs.writable packed ≡ true
    → fs.writable unpacked ≡ true
    → length content < size_mod
    → (mid end : Files) × (zip_compress r o fs source packed ≡ done (ok, mid))
      × (zip_uncompress r' o' mid packed unpacked ≡ done (ok, end))
      × (end.read unpacked ≡ some content)
zip_uncompress-zip_compress r r' o o' fs source packed unpacked content n n' there room room' word =
    let coded = swap_pairs content in
    let mid = write fs packed coded in
    let back : end_bytes ≡ content = swap_pairs-swap_pairs content in
    (
      mid,
      write mid unpacked end_bytes,
      zip_compress_ok r o fs source packed content n there room word,
      zip_uncompress_ok r' o' mid packed unpacked coded n' (read-write_self fs packed coded) room'
          (omega (arith, length-swap_pairs content)),
      rw back (read-write_self mid unpacked content),
    )
  where
    end_bytes : Bytes
    end_bytes = swap_pairs (swap_pairs content)
