-- ===== src/Logger/Newest.antt =====
-- src/utilities/utilities/logger.cpp, `RemoveLogs`: a directory as a map from names to kinds of
-- files, and what becomes of each name.
use rpi_tcp_listener.Base.{
  ℕ, zero, suc, ◌+◌, ◌-◌, ◌^◌, ◌<◌, ◌≤◌, ◌≡◌, refl, ◌∙◌, ap, inl, inr, Bool, true, false, Option,
  none, some, List, [], ◌∷◌, ◌++◌, arith, length, take, ltb, Bool-cases, if◌then◌else◌,
}
use rpi_tcp_listener.Base.Text.{Bytes, str_eq, str_eq→eq}
use rpi_tcp_listener.Logger.Dir.{Entry, bytes_lt, set_insert, collect, remove_entry, remove_first}
use rpi_tcp_listener.Logger.Sets.{
  Above, IsAscending, mem, Above-lt, bytes_lt_irrefl, bytes_lt_trans,
}
use rpi_tcp_listener.Logger.{Logger, LogOs, num_files_to_remove, rounds, remove_logs}
use rpi_tcp_listener.Logger.Entries.{
  prefix-eq, is_path_none, str_eq_sym, Fresh, Fresh-empty, Fresh-insert, IsDistinct,
  collect-IsAscending, count_files, is_path, mem-collect,
}
use rpi_tcp_listener.Logger.Retention.{rounds-eq-sub, length-names}

-- Whether the name is that of a regular file, `none` if there is no such name.
abbrev pub kind_of : Bytes → List Entry → Option Bool
kind_of n [] = none
kind_of n (e ∷ es) = let rest = kind_of n es in if str_eq n e.d_name then some e.is_file else rest

abbrev is_file_kind : Option Bool → Bool
is_file_kind (some true) = true
is_file_kind _ = false

-- How many regular files have names behind this one.
abbrev pub count_later : Bytes → List Entry → ℕ
count_later n [] = 0
count_later n (e ∷ es) =
    let rest = count_later n es in
    if e.is_file then (if bytes_lt n e.d_name then suc rest else rest) else rest

-- How many texts of a set come behind this one.
abbrev above : Bytes → List Bytes → ℕ
above p [] = 0
above p (x ∷ s) = let rest = above p s in if bytes_lt p x then suc rest else rest

above-insert :
    (p x : Bytes) (s : List Bytes)
    → mem x s ≡ false
    → above p (set_insert x s) ≡ (if bytes_lt p x then suc (above p s) else above p s)
unfolding set_insert
above-insert p x [] h = refl
above-insert p x (y ∷ s) h = ground (arith, above-insert p x s)

above-all : (p : Bytes) (s : List Bytes) → Above p s → above p s ≡ length s
above-all p [] a = refl
above-all p (x ∷ s) (h, a) = ground (arith, above-all p s a)

above-le : (p : Bytes) (s : List Bytes) → above p s ≤ length s
above-le p [] = omega arith
above-le p (x ∷ s) = ground (arith, above-le p s)

above-after : (p x : Bytes) → bytes_lt x p ≡ true → bytes_lt p x ≡ false
above-after p x h = ground (arith, bytes_lt_irrefl x, bytes_lt_trans x p x)

above-member : (p : Bytes) (s : List Bytes) → IsAscending s → mem p s ≡ true → above p s < length s
above-member p [] a m = cc
above-member p (x ∷ s) (a, rs) m =
    ground (arith, above-le p s, above-member p s rs, str_eq→eq p x, bytes_lt_irrefl p)

-- The place of a member of a set, counted from its end.
mem-take :
    (p : Bytes) (k : ℕ) (s : List Bytes)
    → IsAscending s
    → mem p s ≡ true
    → mem p (take k s) ≡ ltb (length s) (suc (k + above p s))
mem-take p zero s a m = ground (arith, above-member p s a m)
mem-take p (suc k) [] a m = cc
mem-take p (suc k) (x ∷ s) (a, rs) m = elim (Bool-cases (str_eq p x)) [
  | inl e ↦
      let same = str_eq→eq p x e in ground (arith, e, same, above-all x s a, bytes_lt_irrefl x)
  | inr e ↦
      let inside : mem p s ≡ true = ground (arith, e, m) in
      ground (arith, e, mem-take p k s rs inside, above-after p x (Above-lt x p s a inside))
]

take-mem : (p : Bytes) (k : ℕ) (s : List Bytes) → mem p s ≡ false → mem p (take k s) ≡ false
take-mem p zero s m = refl
take-mem p (suc k) [] m = refl
take-mem p (suc k) (x ∷ s) m = ground (arith, take-mem p k s)

module _ (dir : Bytes) where
  prefix-lt : (a b d : Bytes) → bytes_lt (d ++ a) (d ++ b) ≡ bytes_lt a b
  unfolding bytes_lt
  prefix-lt a b [] = refl
  prefix-lt a b (c ∷ d) = ground (arith, prefix-lt a b d)

  above-collect :
      (n : Bytes) (es : List Entry) (s : List Bytes)
      → IsDistinct es
      → Fresh dir es s
      → above (dir ++ n) (collect dir es s) ≡ count_later n es + above (dir ++ n) s
  unfolding collect
  above-collect n [] s d f = omega arith
  above-collect n (e ∷ es) s (d, ds) (f, fs) = elim (Bool-cases e.is_file) [
    | inl file ↦ rw file (
        ground (
          arith,
          above-collect n es (set_insert (dir ++ e.d_name) s) ds
              (Fresh-insert dir e.d_name es s d fs),
          above-insert (dir ++ n) (dir ++ e.d_name) s f,
          prefix-lt n e.d_name dir,
        ))
    | inr file ↦ rw file (above-collect n es s ds fs)
  ]

  -- A path is that of the first entry of its name, when no name is there twice.
  is_path_kind :
      (n : Bytes) (es : List Entry)
      → IsDistinct es
      → is_path dir (dir ++ n) es ≡ is_file_kind (kind_of n es)
  is_path_kind n [] d = refl
  is_path_kind n (e ∷ es) (d, ds) = ground (
    arith,
    is_path_kind n es ds,
    prefix-eq n e.d_name dir,
    str_eq→eq n e.d_name,
    is_path_none dir (dir ++ n) e.d_name es,
  )

  kind_of-remove :
      (n p : Bytes) (es : List Entry)
      → kind_of n (remove_entry dir p es) ≡ (if str_eq p (dir ++ n) then none else kind_of n es)
  unfolding remove_entry
  kind_of-remove n p [] = ground arith
  kind_of-remove n p (e ∷ es) = ground (
    arith,
    kind_of-remove n p es,
    str_eq→eq n e.d_name,
    str_eq→eq p (dir ++ n),
    prefix-eq n e.d_name dir,
  )

  kind_of-remove_first :
      (n : Bytes) (k : ℕ) (ps : List Bytes) (es : List Entry)
      → kind_of n (remove_first dir k ps es)
        ≡ (if mem (dir ++ n) (take k ps) then none else kind_of n es)
  unfolding remove_first
  kind_of-remove_first n zero ps es = refl
  kind_of-remove_first n (suc k) [] es = refl
  kind_of-remove_first n (suc k) (p ∷ ps) es = ground (
    arith,
    kind_of-remove_first n k ps (remove_entry dir p es),
    kind_of-remove n p es,
    str_eq_sym p (dir ++ n),
  )

-- What becomes of a name: regular files that four others come behind are removed.
abbrev pub kept_kind : ℕ → Option Bool → Option Bool
kept_kind later (some true) = if ltb later 4 then some true else none
kept_kind later k = k

kept_lem :
    (k count later : ℕ) (p : Bytes) (names : List Bytes) (kind : Option Bool)
    → IsAscending names
    → mem p names ≡ is_file_kind kind
    → above p names ≡ later
    → length names ≡ count
    → k ≡ count - 4
    → (if mem p (take k names) then none else kind) ≡ kept_kind later kind
kept_lem k count later p names none a m b c e = rw (take-mem p k names m) refl
kept_lem k count later p names (some false) a m b c e = rw (take-mem p k names m) refl
kept_lem k count later p names (some true) a m b c e =
    let place = mem-take p k names a m in let few = above-member p names a m in ground arith

-- `RemoveLogs` on a directory that it can read, with distinct names and less than 2 ^ 31 regular
-- files, in whatever order it lists them: a regular file stays exactly when fewer than four regular
-- files have names behind its own, and all else stays.
pub remove_logs_lem :
    (os : LogOs) (l : Logger) (n : Bytes)
    → os.opens_dir ≡ true
    → IsDistinct l.entries
    → count_files l.entries < 2 ^ 31
    → kind_of n (remove_logs os l).0.entries
      ≡ kept_kind (count_later n l.entries) (kind_of n l.entries)
unfolding remove_logs
remove_logs_lem os l n o d h =
    let dir = l.log_dir_name in
    let names = collect dir l.entries [] in
    let k = rounds (num_files_to_remove (length names)) in
    let p = dir ++ n in
    let size = length-names dir l.entries d in
    let later : above p names ≡ count_later n l.entries =
      omega (arith, above-collect dir n l.entries [] d (Fresh-empty dir l.entries)) in
    let count : k ≡ count_files l.entries - 4 =
      ap (λ c. rounds (num_files_to_remove c)) size ∙ rounds-eq-sub (count_files l.entries) h in
    let there : mem p names ≡ is_file_kind (kind_of n l.entries) =
      ground (arith, mem-collect dir p l.entries [], is_path_kind dir n l.entries d) in
    rw o (
      kind_of-remove_first dir n k names l.entries
      ∙ kept_lem k (count_files l.entries) (count_later n l.entries) p names (kind_of n l.entries)
          (collect-IsAscending dir l.entries [] tt) there later size count)
