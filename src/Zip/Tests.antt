-- ===== src/Zip/Tests.antt =====
-- A short file through both functions, and the theorems on files at it.
use rpi_tcp_listener.Base.{◌≡◌, refl, true, some, none, [], arith}
use rpi_tcp_listener.Base.Text.{codes, str_eq}
use rpi_tcp_listener.Base.Outcome.{done}
use rpi_tcp_listener.Base.{if◌then◌else◌}
use rpi_tcp_listener.Files.{Files}
use rpi_tcp_listener.Zip.{ok, zip_file, zip_uncompress, zip_compress}
use rpi_tcp_listener.Zip.Swap.{swap_pairs, zip_file_lem}
use rpi_tcp_listener.Zip.RoundTrip.{zip_uncompress-zip_compress}

abbrev disk : Files
disk = record {
  read = λ n. if str_eq (codes "a.mp3") n then some (codes "abcde") else none;
  writable = λ n. true;
}

odd_file : zip_file 5 [] 0 (codes "abcde") ≡ codes "badce"
unfolding zip_file
odd_file = refl

zip_file_lem_example : zip_file 5 (codes "old") 7 (codes "abcde") ≡ swap_pairs (codes "abcde")
zip_file_lem_example = zip_file_lem (codes "old") 7 (codes "abcde") (omega arith)

zip_uncompress-zip_compress_example :
    (mid end : Files) × (zip_compress [] 0 disk (codes "a.mp3") (codes "b") ≡ done (ok, mid))
    × (zip_uncompress [] 0 mid (codes "b") (codes "c") ≡ done (ok, end))
    × (end.read (codes "c") ≡ some (codes "abcde"))
zip_uncompress-zip_compress_example =
    zip_uncompress-zip_compress [] [] 0 0 disk (codes "a.mp3") (codes "b") (codes "c")
      (codes "abcde") refl refl refl refl refl (omega arith)
