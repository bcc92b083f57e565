-- ===== src/Logger/Retention.antt =====
-- src/utilities/utilities/logger.cpp, `RemoveLogs`: how many log files stay, and which.
use rpi_tcp_listener.Base.{
  ℕ, zero, suc, ◌+◌, ◌-◌, ◌^◌, ◌≤◌, ◌<◌, ◌≡◌, refl, ◌∙◌, inl, inr, true, false, List, [], ◌∷◌,
  arith, length, take, min, ap, All, Bool-cases, if◌then◌else◌,
}
use rpi_tcp_listener.Base.Text.{Bytes, str_eq, str_eq_refl, str_eq→eq}
use rpi_tcp_listener.Logger.Dir.{Entry, bytes_lt, collect, remove_entry, remove_first}
use rpi_tcp_listener.Logger.Sets.{Above, IsAscending, mem, Above-mem, Above-lt}
use rpi_tcp_listener.Logger.{Logger, LogOs, num_files_to_remove, rounds, remove_logs}
use rpi_tcp_listener.Logger.Entries.{
  Fresh-empty, IsDistinct, collect-IsAscending, count-remove, count_files, is_path, is_path-remove,
  length-collect, mem-collect, remove-IsDistinct, str_eq_sym,
}

module _ (dir : Bytes) where
  -- The loop over the ascending names.
  abbrev Paths : List Entry → List Bytes → Type 0
  Paths es = All (λ p. is_path dir p es ≡ true)

  lt-ne : (p q : Bytes) → bytes_lt p q ≡ true → str_eq p q ≡ false
  lt-ne p q h = ground (arith, str_eq→eq p q, Above-mem p (q ∷ []) (h, tt))

  Paths-remove :
      (p : Bytes) (es : List Entry) (ps : List Bytes)
      → Above p ps
      → Paths es ps
      → Paths (remove_entry dir p es) ps
  Paths-remove p es [] a h = tt
  Paths-remove p es (q ∷ ps) (a, rs) (h, hs) =
      (rw (is_path-remove dir p q es, lt-ne p q a) h, Paths-remove p es ps rs hs)

  count-remove_first :
      (n : ℕ) (ps : List Bytes) (es : List Entry)
      → n ≤ length ps
      → IsAscending ps
      → IsDistinct es
      → Paths es ps
      → count_files (remove_first dir n ps es) + n ≡ count_files es
  unfolding remove_first
  count-remove_first zero ps es le a d h = omega arith
  count-remove_first (suc n) [] es le a d h = absurd (omega arith)
  count-remove_first (suc n) (p ∷ ps) es le (a, rs) d (h, hs) = omega (
    arith,
    count-remove_first n ps (remove_entry dir p es) (omega arith) rs (remove-IsDistinct dir p es d)
        (Paths-remove p es ps a hs),
    count-remove dir p es d h,
  )

  is_path-remove_first :
      (q : Bytes) (n : ℕ) (ps : List Bytes) (es : List Entry)
      → is_path dir q (remove_first dir n ps es)
        ≡ (if mem q (take n ps) then false else is_path dir q es)
  unfolding remove_first
  is_path-remove_first q zero ps es = refl
  is_path-remove_first q (suc n) [] es = refl
  is_path-remove_first q (suc n) (p ∷ ps) es = ground (
    arith,
    is_path-remove_first q n ps (remove_entry dir p es),
    is_path-remove dir p q es,
    str_eq_sym p q,
  )

  mem-Paths :
      (es : List Entry) (ps : List Bytes)
      → ((p : Bytes) → mem p ps ≡ true → is_path dir p es ≡ true)
      → Paths es ps
  mem-Paths es [] h = tt
  mem-Paths es (p ∷ ps) h =
      (h p (rw (str_eq_refl p) refl), mem-Paths es ps (λ q m. h q (ground (arith, m))))

  collect-Paths : (es : List Entry) → Paths es (collect dir es [])
  collect-Paths es =
      mem-Paths es (collect dir es []) (λ p m. ground (arith, mem-collect dir p es []))

  take-below-drop :
      (p q : Bytes) (n : ℕ) (ps : List Bytes)
      → IsAscending ps
      → mem p (take n ps) ≡ true
      → mem q (take n ps) ≡ false
      → mem q ps ≡ true
      → bytes_lt p q ≡ true
  take-below-drop p q zero ps a h k m = cc
  take-below-drop p q (suc n) [] a h k m = cc
  take-below-drop p q (suc n) (r ∷ ps) (a, rs) h k m =
      ground (arith, str_eq→eq p r, Above-lt r q ps a, take-below-drop p q n ps rs)

pub rounds-eq-sub : (c : ℕ) → c < 2 ^ 31 → rounds (num_files_to_remove c) ≡ c - 4
rounds-eq-sub c h = ground arith

abbrev pub kept_files : ℕ
kept_files = 4

pub length-names :
    (dir : Bytes) (es : List Entry) → IsDistinct es → length (collect dir es []) ≡ count_files es
length-names dir es d = omega (arith, length-collect dir es [] d tt (Fresh-empty dir es))

few :
    (dir : Bytes) (es : List Entry)
    → IsDistinct es
    → count_files es < 2 ^ 31
    → let names = collect dir es [] in
      count_files (remove_first dir (rounds (num_files_to_remove (length names))) names es)
      ≡ min (count_files es) kept_files
few dir es d h =
    let names = collect dir es [] in
    let n = rounds (num_files_to_remove (length names)) in
    let same = length-names dir es d in
    let round : n ≡ count_files es - 4 =
      ap (λ c. rounds (num_files_to_remove c)) same ∙ rounds-eq-sub (count_files es) h in
    omega (
      arith,
      round,
      count-remove_first dir n names es (omega (arith, same, round))
          (collect-IsAscending dir es [] tt) d (collect-Paths dir es),
    )

-- `RemoveLogs` on a directory that it can read, with distinct names and less than 2 ^ 31 regular
-- files, leaves four of the files, or all if there are fewer, so that with the file opened next
-- there are at most five.
pub remove_logs-count :
    (os : LogOs) (l : Logger)
    → os.opens_dir ≡ true
    → IsDistinct l.entries
    → count_files l.entries < 2 ^ 31
    → count_files (remove_logs os l).0.entries ≡ min (count_files l.entries) kept_files
unfolding remove_logs
remove_logs-count os l o d h = rw o (few l.log_dir_name l.entries d h)

removed-lt :
    (dir p q : Bytes) (n : ℕ) (es : List Entry)
    → is_path dir p es ≡ true
    → is_path dir p (remove_first dir n (collect dir es []) es) ≡ false
    → is_path dir q (remove_first dir n (collect dir es []) es) ≡ true
    → bytes_lt p q ≡ true
removed-lt dir p q n es before gone kept =
    let names = collect dir es [] in
    let p_gone = is_path-remove_first dir p n names es in
    let q_kept = is_path-remove_first dir q n names es in
    let q_mem = mem-collect dir q es [] in
    let p_taken : mem p (take n names) ≡ true = ground (arith, p_gone, before, gone) in
    let q_left : mem q (take n names) ≡ false = ground (arith, q_kept, kept) in
    let q_in : mem q names ≡ true = ground (arith, q_kept, kept, q_mem) in
    take-below-drop dir p q n names (collect-IsAscending dir es [] tt) p_taken q_left q_in

-- What `RemoveLogs` removes is older, in the order of the names, than what it leaves: if the path
-- `p` of a regular file is gone behind it, and the path `q` of one is still there, then `p` comes
-- before `q`.
pub remove_logs-lt :
    (os : LogOs) (l : Logger) (p q : Bytes)
    → is_path l.log_dir_name p l.entries ≡ true
    → is_path l.log_dir_name p (remove_logs os l).0.entries ≡ false
    → is_path l.log_dir_name q (remove_logs os l).0.entries ≡ true
    → bytes_lt p q ≡ true
unfolding remove_logs
remove_logs-lt os l p q before gone kept = elim (Bool-cases os.opens_dir) [
  | inl o ↦
      removed-lt l.log_dir_name p q
        (rounds (num_files_to_remove (length (collect l.log_dir_name l.entries [])))) l.entries
        before (rw o at (gone)) (rw o at (kept))
  | inr o ↦ (let same = rw o at (gone) in cc)
]
