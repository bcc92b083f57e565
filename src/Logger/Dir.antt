-- ===== src/Logger/Dir.antt =====
-- src/utilities/utilities/logger.cpp: the directory of the log files, and `std::set<std::string>`.
--
-- A directory is the list of its entries, a set the ascending list of its texts; texts are compared
-- byte by byte.
use rpi_tcp_listener.Base.{
  ℕ, zero, suc, Bool, true, false, List, [], ◌∷◌, ◌++◌, ltb, ◌==◌, if◌then◌else◌,
}
use rpi_tcp_listener.Base.Text.{Bytes, str_eq}

-- `dirent`: its name, and whether `d_type` is that of a regular file.
pub record Entry : Type 0 where
  pub d_name : Bytes
  pub is_file : Bool

-- `operator<` of `std::string`.
unfoldable pub bytes_lt : Bytes → Bytes → Bool
bytes_lt [] [] = false
bytes_lt [] (y ∷ ys) = true
bytes_lt (x ∷ xs) [] = false
bytes_lt (x ∷ xs) (y ∷ ys) = let rest = bytes_lt xs ys in if x == y then rest else ltb x y

-- `insert` of `std::set`: a text that is there already is not put in again.
unfoldable pub set_insert : Bytes → List Bytes → List Bytes
unfolding bytes_lt
set_insert x [] = x ∷ []
set_insert x (y ∷ ys) =
    let rest = set_insert x ys in
    if str_eq x y then y ∷ ys else if bytes_lt x y then x ∷ y ∷ ys else y ∷ rest

-- The `readdir` loop of `RemoveLogs`, from the set collected so far.
unfoldable pub collect : Bytes → List Entry → List Bytes → List Bytes
unfolding set_insert
collect dir [] names = names
collect dir (e ∷ es) names =
    collect dir es (if e.is_file then set_insert (dir ++ e.d_name) names else names)

-- `remove(path)` in the directory `dir`.
unfoldable pub remove_entry : Bytes → Bytes → List Entry → List Entry
remove_entry dir path [] = []
remove_entry dir path (e ∷ es) =
    let rest = remove_entry dir path es in if str_eq path (dir ++ e.d_name) then rest else e ∷ rest

-- The `for` loop of `RemoveLogs`: the first `n` names of the set are removed.
unfoldable pub remove_first : Bytes → ℕ → List Bytes → List Entry → List Entry
unfolding remove_entry
remove_first dir zero names es = es
remove_first dir (suc n) [] es = es
remove_first dir (suc n) (p ∷ ps) es = remove_first dir n ps (remove_entry dir p es)

unfoldable pub has_name : Bytes → List Entry → Bool
has_name name [] = false
has_name name (e ∷ es) = let rest = has_name name es in if str_eq name e.d_name then true else rest

-- A file opened for writing: an entry for it is made unless there is one.
unfoldable pub add_file : Bytes → List Entry → List Entry
unfolding has_name
add_file name es = if has_name name es then es else record { d_name = name; is_file = true } ∷ es

unfoldable pub without_name : Bytes → List Entry → List Entry
without_name name [] = []
without_name name (e ∷ es) =
    let rest = without_name name es in if str_eq name e.d_name then rest else e ∷ rest

-- `rename(old, new)` of two different names of the directory: what stood under `new` is lost.
unfoldable pub rename_entry : Bytes → Bytes → List Entry → List Entry
unfolding without_name
rename_entry old new es =
    record { d_name = new; is_file = true } ∷ without_name old (without_name new es)
