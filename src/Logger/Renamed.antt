-- ===== src/Logger/Renamed.antt =====
-- src/utilities/utilities/logger.cpp: what `rename` and `fopen` do to the regular files of the log
-- directory, and what `remove` leaves of its names.
use rpi_tcp_listener.Base.{ℕ, zero, suc, ◌≤◌, ◌≡◌, refl, false, List, [], ◌∷◌, arith}
use rpi_tcp_listener.Base.Text.{Bytes}
use rpi_tcp_listener.Logger.Dir.{
  Entry, has_name, add_file, without_name, rename_entry, remove_entry, remove_first,
}
use rpi_tcp_listener.Logger.Entries.{IsDistinct, count_files, remove-IsDistinct}

without_absent :
    (n m : Bytes) (es : List Entry) → has_name n es ≡ false → has_name n (without_name m es) ≡ false
unfolding has_name without_name
without_absent n m [] h = refl
without_absent n m (e ∷ es) h = ground (arith, without_absent n m es)

has_name-without : (n : Bytes) (es : List Entry) → has_name n (without_name n es) ≡ false
unfolding has_name without_name
has_name-without n [] = refl
has_name-without n (e ∷ es) = ground (arith, has_name-without n es)

without-IsDistinct : (n : Bytes) (es : List Entry) → IsDistinct es → IsDistinct (without_name n es)
unfolding without_name
without-IsDistinct n [] d = tt
without-IsDistinct n (e ∷ es) (d, ds) =
    ground (arith, without_absent e.d_name n es, without-IsDistinct n es)

count-without : (n : Bytes) (es : List Entry) → count_files (without_name n es) ≤ count_files es
unfolding without_name
count-without n [] = omega arith
count-without n (e ∷ es) = ground (arith, count-without n es)

pub rename-IsDistinct :
    (old new : Bytes) (es : List Entry) → IsDistinct es → IsDistinct (rename_entry old new es)
unfolding rename_entry
rename-IsDistinct old new es d = (
  without_absent new old (without_name new es) (has_name-without new es),
  without-IsDistinct old (without_name new es) (without-IsDistinct new es d),
)

pub count-rename :
    (old new : Bytes) (es : List Entry)
    → count_files (rename_entry old new es) ≤ suc (count_files es)
unfolding rename_entry
count-rename old new es =
    omega (arith, count-without old (without_name new es), count-without new es)

pub add-IsDistinct : (n : Bytes) (es : List Entry) → IsDistinct es → IsDistinct (add_file n es)
unfolding add_file
add-IsDistinct n es d = ground arith

pub count-add : (n : Bytes) (es : List Entry) → count_files (add_file n es) ≤ suc (count_files es)
unfolding add_file
count-add n es = ground arith

pub remove_first-IsDistinct :
    (dir : Bytes) (n : ℕ) (ps : List Bytes) (es : List Entry)
    → IsDistinct es
    → IsDistinct (remove_first dir n ps es)
unfolding remove_first
remove_first-IsDistinct dir zero ps es d = d
remove_first-IsDistinct dir (suc n) [] es d = d
remove_first-IsDistinct dir (suc n) (p ∷ ps) es d =
    remove_first-IsDistinct dir n ps (remove_entry dir p es) (remove-IsDistinct dir p es d)
