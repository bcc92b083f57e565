-- ===== src/Logger/Entries.antt =====
-- src/utilities/utilities/logger.cpp, `RemoveLogs`: the regular files of the log directory, as the
-- `readdir` loop collects them and `remove` takes them away.
use rpi_tcp_listener.Base.{
  ℕ, suc, ◌+◌, ◌≡◌, refl, inl, inr, Bool, true, false, List, [], ◌∷◌, ◌++◌, arith, length,
  Bool-cases, if◌then◌else◌,
}
use rpi_tcp_listener.Base.Text.{Bytes, str_eq, str_eq_refl, str_eq→eq}
use rpi_tcp_listener.Logger.Dir.{Entry, set_insert, collect, remove_entry, has_name}
use rpi_tcp_listener.Logger.Sets.{
  IsAscending, mem, set_insert-IsAscending, length-set_insert, mem-set_insert,
}

-- The regular files of a directory.
abbrev pub count_files : List Entry → ℕ
count_files [] = 0
count_files (e ∷ es) = if e.is_file then suc (count_files es) else count_files es

-- A directory has no name twice.
abbrev pub IsDistinct : List Entry → Type 0
IsDistinct [] = Unit {0}
IsDistinct (e ∷ es) = (has_name e.d_name es ≡ false) × IsDistinct es

pub prefix-eq : (a b : Bytes) (d : Bytes) → str_eq (d ++ a) (d ++ b) ≡ str_eq a b
prefix-eq a b [] = refl
prefix-eq a b (c ∷ d) = ground (arith, prefix-eq a b d)

pub str_eq_sym : (a b : Bytes) → str_eq a b ≡ str_eq b a
str_eq_sym [] [] = refl
str_eq_sym [] (y ∷ ys) = refl
str_eq_sym (x ∷ xs) [] = refl
str_eq_sym (x ∷ xs) (y ∷ ys) = ground (arith, str_eq_sym xs ys)

module _ (dir : Bytes) where
  -- The path `p` is that of a regular file.
  abbrev pub is_path : Bytes → List Entry → Bool
  is_path p [] = false
  is_path p (e ∷ es) =
      let rest = is_path p es in
      if e.is_file then (if str_eq p (dir ++ e.d_name) then true else rest) else rest

  abbrev pub Fresh : List Entry → List Bytes → Type 0
  Fresh [] s = Unit {0}
  Fresh (e ∷ es) s = (mem (dir ++ e.d_name) s ≡ false) × Fresh es s

  pub Fresh-empty : (es : List Entry) → Fresh es []
  Fresh-empty [] = tt
  Fresh-empty (e ∷ es) = (refl, Fresh-empty es)

  pub Fresh-insert :
      (n : Bytes) (es : List Entry) (s : List Bytes)
      → has_name n es ≡ false
      → Fresh es s
      → Fresh es (set_insert (dir ++ n) s)
  unfolding has_name
  Fresh-insert n [] s h f = tt
  Fresh-insert n (e ∷ es) s h (f, fs) = ground (
    arith,
    mem-set_insert (dir ++ e.d_name) (dir ++ n) s,
    prefix-eq e.d_name n dir,
    str_eq_sym e.d_name n,
    Fresh-insert n es s,
  )

  pub collect-IsAscending :
      (es : List Entry) (s : List Bytes) → IsAscending s → IsAscending (collect dir es s)
  unfolding collect
  collect-IsAscending [] s a = a
  collect-IsAscending (e ∷ es) s a = elim (Bool-cases e.is_file) [
    | inl f ↦ rw f (
        collect-IsAscending es (set_insert (dir ++ e.d_name) s)
          (set_insert-IsAscending (dir ++ e.d_name) s a))
    | inr f ↦ rw f (collect-IsAscending es s a)
  ]

  pub length-collect :
      (es : List Entry) (s : List Bytes)
      → IsDistinct es
      → IsAscending s
      → Fresh es s
      → length (collect dir es s) ≡ count_files es + length s
  unfolding collect
  length-collect [] s d a f = omega arith
  length-collect (e ∷ es) s (d, ds) a (f, fs) = elim (Bool-cases e.is_file) [
    | inl file ↦ rw file (
        omega (
          arith,
          length-collect es (set_insert (dir ++ e.d_name) s) ds
              (set_insert-IsAscending (dir ++ e.d_name) s a) (Fresh-insert e.d_name es s d fs),
          length-set_insert (dir ++ e.d_name) s a f,
        ))
    | inr file ↦ rw file (length-collect es s ds a fs)
  ]

  pub mem-collect :
      (q : Bytes) (es : List Entry) (s : List Bytes)
      → mem q (collect dir es s) ≡ (if is_path q es then true else mem q s)
  unfolding collect
  mem-collect q [] s = refl
  mem-collect q (e ∷ es) s = ground (
    arith,
    mem-collect q es s,
    mem-collect q es (set_insert (dir ++ e.d_name) s),
    mem-set_insert q (dir ++ e.d_name) s,
  )

  -- What one `remove` does.
  remove_absent :
      (n : Bytes) (es : List Entry) → has_name n es ≡ false → remove_entry dir (dir ++ n) es ≡ es
  unfolding has_name remove_entry
  remove_absent n [] h = refl
  remove_absent n (e ∷ es) h = ground (arith, prefix-eq n e.d_name dir, remove_absent n es)

  has_name-remove :
      (n p : Bytes) (es : List Entry)
      → has_name n es ≡ false
      → has_name n (remove_entry dir p es) ≡ false
  unfolding has_name remove_entry
  has_name-remove n p [] h = refl
  has_name-remove n p (e ∷ es) h = ground (arith, has_name-remove n p es)

  pub remove-IsDistinct :
      (p : Bytes) (es : List Entry) → IsDistinct es → IsDistinct (remove_entry dir p es)
  unfolding remove_entry
  remove-IsDistinct p [] d = tt
  remove-IsDistinct p (e ∷ es) (d, ds) =
      ground (arith, has_name-remove e.d_name p es, remove-IsDistinct p es)

  pub is_path-remove :
      (p q : Bytes) (es : List Entry)
      → is_path q (remove_entry dir p es) ≡ (if str_eq p q then false else is_path q es)
  unfolding remove_entry
  is_path-remove p q [] = ground arith
  is_path-remove p q (e ∷ es) = ground (
    arith,
    is_path-remove p q es,
    str_eq→eq p (dir ++ e.d_name),
    str_eq→eq q (dir ++ e.d_name),
    str_eq→eq p q,
    str_eq_sym p q,
    str_eq_refl p,
  )

  remove_none :
      (p n : Bytes) (es : List Entry)
      → str_eq p (dir ++ n) ≡ true
      → has_name n es ≡ false
      → remove_entry dir p es ≡ es
  remove_none p n es e h = rw (str_eq→eq p (dir ++ n) e) (remove_absent n es h)

  pub is_path_none :
      (p n : Bytes) (es : List Entry)
      → str_eq p (dir ++ n) ≡ true
      → has_name n es ≡ false
      → is_path p es ≡ false
  unfolding has_name
  is_path_none p n [] e h = refl
  is_path_none p n (f ∷ es) e h =
      ground (arith, prefix-eq n f.d_name dir, str_eq→eq p (dir ++ n), is_path_none p n es)

  pub count-remove :
      (p : Bytes) (es : List Entry)
      → IsDistinct es
      → is_path p es ≡ true
      → suc (count_files (remove_entry dir p es)) ≡ count_files es
  unfolding remove_entry
  count-remove p [] d h = cc
  count-remove p (e ∷ es) (d, ds) h =
      ground (arith, remove_none p e.d_name es, is_path_none p e.d_name es, count-remove p es)
