-- ===== src/Logger.antt =====
-- src/utilities/utilities/logger.{h,cpp}: the log on the screen and in files, with its rotation.
--
-- The log directory is a list of entries, and the file that `file_m` writes to a list of texts.
-- What the operating system answers is the parameter `LogOs`; `remove` of a listed file succeeds.
-- A message is the text that `vsnprintf` makes of the format and its arguments. `HOME` is set.
pub mod Format
pub mod Dir
pub mod Rotation
pub mod Sets
pub mod Entries
pub mod Retention
pub mod Newest
pub mod Opened
pub mod Bounded
pub mod Renamed
pub mod Chronology
pub mod Faults
mod Tests
use rpi_tcp_listener.Base.{
  ℕ, zero, suc, ◌+◌, ◌-◌, ◌/◌, ◌%◌, ◌^◌, Bool, true, false, ◌&&◌, not, Option, none, some, List, [],
  ◌∷◌, ◌++◌, length, take, ltb, leb, ◌==◌, if◌then◌else◌,
}
use rpi_tcp_listener.Base.Int.{ℤ, pos, negsuc, add_ℕ, size_mod}
use rpi_tcp_listener.Base.Text.{Bytes, codes}
use rpi_tcp_listener.Base.Decimal.{print_int, pad_int}
use rpi_tcp_listener.Base.Outcome.{
  Outcome, done, fault, bad_read, null_file, overflow, failed_assert, ◌>>=◌,
}
use rpi_tcp_listener.Time.{Tm}
use Format.{
  LogLevel, log_level_str, name_len, msg_len, max_log_line_num, max_log_files, into_array,
  compact_timestamp, timestamp, memset_array, stored_name, colour, normal, info, warning, error,
  screen, max_level,
}
use Dir.{Entry, collect, remove_first, has_name, add_file, rename_entry}

-- `localtime`, `tv_usec`, whether `opendir`, `rename` and `fopen` succeed, and `HOME`.
pub record LogOs : Type 0 where
  pub tm_now : Option Tm
  pub tv_usec : ℕ
  pub opens_dir : Bool
  pub renames : Bool
  pub opens_file : Bool
  pub home : Bytes

-- `Logger`, with the directory, the texts in the file at `file_m`, and those printed. `file_m` is
-- the null pointer where `has_file` is `false`.
pub record Logger : Type 0 where
  pub verbose_mode : Bool
  pub write_to_file : Bool
  pub has_file : Bool
  pub log_dir_name : Bytes
  pub file_count : ℕ
  pub line_count : ℕ
  pub entries : List Entry
  pub lines : List Bytes
  pub printed : List Bytes

abbrev pub dir_name : Bytes
dir_name = codes "log/"

abbrev pub log_file_name : Bytes
log_file_name = codes "log"

abbrev pub current_name : Bytes
current_name = codes "log.txt"

-- `GetCompactTimestamp` and `GetTimestamp`: the code reads the result of `localtime` unseen.
abbrev pub compact_date : LogOs → Outcome Bytes
compact_date os = elim os.tm_now [
  | none ↦ fault bad_read
  | some tm ↦ into_array msg_len (compact_timestamp tm)
]

abbrev log_date : LogOs → ℕ → Outcome Bytes
log_date os size = elim os.tm_now [
  | none ↦ fault bad_read
  | some tm ↦ into_array size (timestamp tm (os.tv_usec / 1000))
]

-- The call of `rename` in `RenameAndStoreLogFile`, and what follows it.
abbrev pub renamed : LogOs → Logger → Bytes → Outcome (Logger × Bool)
renamed os l next =
    if os.renames && has_name current_name l.entries
    then (if ltb 99 l.file_count
        then fault failed_assert
        else done (record l { entries = rename_entry current_name next l.entries }, true))
    else done (l, false)

abbrev pub store_next : LogOs → Logger → Bytes → Outcome (Logger × Bool)
store_next os l date =
    into_array name_len (l.log_dir_name ++ stored_name date l.file_count) >>= λ next.
    renamed os l (stored_name date l.file_count)

abbrev pub store_as : LogOs → Logger → Bytes → Outcome (Logger × Bool)
store_as os l date =
    into_array name_len (l.log_dir_name ++ current_name) >>= λ prev. store_next os l date

-- `RenameAndStoreLogFile`.
unfoldable pub rename_and_store_log_file : LogOs → Logger → Outcome (Logger × Bool)
unfolding compact_timestamp rename_entry has_name pad_int
rename_and_store_log_file os l = compact_date os >>= λ date. store_as os l date

-- `int num_files_to_remove`: the `size_t` difference as an `int`.
abbrev pub to_int : ℕ → ℤ
to_int w = if ltb w (2 ^ 31) then pos w else negsuc (size_mod - 1 - w)

abbrev pub num_files_to_remove : ℕ → ℤ
num_files_to_remove size = to_int ((size + (size_mod - max_log_files) + 1) % size_mod)

-- How often a loop `for (int i = 0; i < n; ++i)` runs.
abbrev pub rounds : ℤ → ℕ
rounds (pos n) = n
rounds (negsuc n) = 0

-- `RemoveLogs`.
unfoldable pub remove_logs : LogOs → Logger → Logger × Bool
unfolding collect remove_first
remove_logs os l =
    let names = collect l.log_dir_name l.entries [] in
    let n = rounds (num_files_to_remove (length names)) in
    if os.opens_dir
    then (record l { entries = remove_first l.log_dir_name n names l.entries }, true)
    else (l, false)

-- The end of `CreateLogFile`: `fopen` with "w+" empties the file.
abbrev pub opened_file : LogOs → Logger → Logger
opened_file os l =
    if os.opens_file
    then record l {
      has_file = true;
      entries = add_file current_name l.entries;
      lines = [];
      line_count = 0;
      file_count = suc l.file_count % max_log_files;
    }
    else record l { has_file = false; write_to_file = false }

abbrev pub open_log_file : LogOs → Logger → Bytes → Outcome Logger
open_log_file os l dir = into_array name_len (dir ++ current_name) >>= λ full_filename.
    done (opened_file os (remove_logs os (record l { log_dir_name = dir })).0)

-- `CreateLogFile`; the result of `RemoveLogs` is dropped.
unfoldable pub create_log_file : LogOs → Logger → Outcome Logger
unfolding remove_logs add_file
create_log_file os l =
    if l.write_to_file
    then (into_array 1024 (os.home ++ (b'/' ∷ dir_name)) >>= λ dir. open_log_file os l dir)
    else done l

-- `CloseLogFile`.
unfoldable pub close_log_file : Logger → Logger
close_log_file l = if l.write_to_file && l.has_file then record l { has_file = false } else l

abbrev pub store_and_create : LogOs → Logger → Outcome Logger
store_and_create os l =
    rename_and_store_log_file os (close_log_file l) >>= λ r. create_log_file os r.0

-- The block "Log file rotate" of `Log`.
unfoldable pub rotate : LogOs → Logger → Outcome Logger
unfolding close_log_file rename_and_store_log_file create_log_file
rotate os l = if leb max_log_line_num l.line_count then store_and_create os l else done l

-- `fputs` and what follows it.
abbrev pub put_line : Bytes → Logger → Outcome Logger
put_line text l =
    if l.has_file
    then done (record l { lines = l.lines ++ (text ∷ []); line_count = suc l.line_count })
    else fault null_file

-- The block `if (write_to_file_m)` of `Log`.
unfoldable pub write_line : LogOs → Bytes → Logger → Outcome Logger
unfolding rotate
write_line os text l = if l.write_to_file then rotate os l >>= put_line text else done l

-- The block `if (verbose_mode_m)`.
unfoldable pub print_screen : LogLevel → Bytes → Logger → Logger
print_screen level text l =
    if l.verbose_mode
    then (elim (colour level) [
      | none ↦ l
      | some c ↦ record l {
        printed = l.printed ++ ((c ++ (text ++ (normal ++ (b'\n' ∷ [])))) ∷ []);
      }
    ])
    else l

-- What `Log` does behind the `memset` of `acDate`, which has `size` bytes.
unfoldable pub log_text : LogOs → ℕ → LogLevel → Bytes → Logger → Outcome Logger
unfolding write_line print_screen timestamp
log_text os size level msg l = log_date os size >>= λ date.
    into_array (msg_len + 256 + 1)
      (date ++ (codes " [" ++ (log_level_str level ++ (codes "]: " ++ take msg_len msg))))
    >>= λ text. write_line os text (print_screen level text l)

abbrev is_max_level : LogLevel → Bool
is_max_level max_level = true
is_max_level _ = false

abbrev pub date_size : ℕ
date_size = 129

-- `Log`.
unfoldable pub log : LogOs → LogLevel → Bytes → Logger → Outcome Logger
unfolding log_text
log os level msg l =
    if not l.write_to_file && not l.verbose_mode
    then done l
    else if is_max_level level
    then fault failed_assert
    else (memset_array date_size (msg_len + 1) >>= λ u. log_text os date_size level msg l)

-- The constructor: on a directory with these entries.
unfoldable pub new_logger : LogOs → List Entry → Bool → Bool → Outcome Logger
unfolding create_log_file
new_logger os entries log_to_file verbose = create_log_file os (record {
  verbose_mode = verbose;
  write_to_file = log_to_file;
  has_file = false;
  log_dir_name = [];
  file_count = 0;
  line_count = 0;
  entries = entries;
  lines = [];
  printed = [];
})

-- The destructor.
unfoldable pub delete_logger : LogOs → Logger → Outcome Logger
unfolding close_log_file rename_and_store_log_file
delete_logger os l =
    let closed = close_log_file l in
    if l.write_to_file then (rename_and_store_log_file os closed >>= λ r. done r.0) else done closed
