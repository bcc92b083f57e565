-- ===== src/Logger/Opened.antt =====
-- src/utilities/utilities/logger.cpp: a logger whose system calls succeed: its files removed and
-- opened.
use rpi_tcp_listener.Base.{
  ℕ, suc, ◌+◌, ◌%◌, ◌^◌, ◌≤◌, ◌<◌, ◌≡◌, refl, ◌∙◌, sym, true, false, List, [], ◌∷◌, ◌++◌, arith,
  length, length-append, if-true, lt→ltb,
}
use rpi_tcp_listener.Base.Text.{Bytes}
use rpi_tcp_listener.Base.Outcome.{Outcome, done, ◌>>=◌, Succeeds}
use rpi_tcp_listener.Logger.Format.{max_log_files, name_len, into_array}
use rpi_tcp_listener.Logger.Dir.{collect, add_file}
use rpi_tcp_listener.Logger.Entries.{IsDistinct, count_files}
use rpi_tcp_listener.Logger.Retention.{remove_logs-count}
use rpi_tcp_listener.Logger.Renamed.{add-IsDistinct, count-add, remove_first-IsDistinct}
use rpi_tcp_listener.Logger.Rotation.{IsWellformed, remove_logs_keeps}
use rpi_tcp_listener.Logger.{
  Logger, LogOs, current_name, dir_name, open_log_file, opened_file, remove_logs, create_log_file,
  rounds, num_files_to_remove,
}

-- The directory and the file can be opened, and the path of the directory fits in its array.
pub record Works (os : LogOs) : Type 0 where
  pub opens_dir : os.opens_dir ≡ true
  pub opens_file : os.opens_file ≡ true
  pub home_fits : length os.home + 5 < 1024

-- The directory has less than 2 ^ 31 regular files and no name twice, and its path is in its array.
abbrev pub Tidy : ℕ → Logger → Type 0
Tidy n l = IsDistinct l.entries × (count_files l.entries ≤ n) × (length l.log_dir_name < 1024)

into-Succeeds :
    (n : ℕ) (text : Bytes) → length text < n → Succeeds (λ t. t ≡ text) (into_array n text)
into-Succeeds n text h = rw (lt→ltb (length text) n h) refl

into->>= {ℓ} :
    {B : Type ℓ} (P : B → Type 0) (n : ℕ) (text : Bytes) (f : Bytes → Outcome B)
    → length text < n
    → Succeeds P (f text)
    → Succeeds P (into_array n text >>= f)
into->>= P n text f h k = rw (lt→ltb (length text) n h) k

-- `RemoveLogs` and `CreateLogFile`.
remove_logs-Tidy :
    (os : LogOs) (n : ℕ) (l : Logger)
    → os.opens_dir ≡ true
    → n < 2 ^ 31
    → Tidy n l
    → Tidy 4 (remove_logs os l).0
unfolding remove_logs
remove_logs-Tidy os n l o h (d, few, fits) =
    let names = collect l.log_dir_name l.entries [] in
    let count = rounds (num_files_to_remove (length names)) in
    ground (
      arith,
      remove_logs-count os l o d (omega (arith, few, h)),
      remove_first-IsDistinct l.log_dir_name count names l.entries d,
    )

-- A logger that writes to an open file, when the lines of the file are these.
pub record Keeps (texts : List Bytes) (l : Logger) : Type 0 where
  pub well : IsWellformed l
  pub on : l.write_to_file ≡ true
  pub distinct : IsDistinct l.entries
  pub five_files : count_files l.entries ≤ 5
  pub dir_fits : length l.log_dir_name < 1024
  pub texts_in : l.lines ≡ texts

opened-Keeps :
    (os : LogOs) (l : Logger)
    → os.opens_file ≡ true
    → l.write_to_file ≡ true
    → Tidy 4 l
    → Keeps [] (opened_file os l)
opened-Keeps os l o on (d, few, fits) =
    if-true (Keeps []) os.opens_file
      (record l {
        has_file = true;
        entries = add_file current_name l.entries;
        lines = [];
        line_count = 0;
        file_count = suc l.file_count % max_log_files;
      })
      (record l { has_file = false; write_to_file = false }) o
      (record {
        well = record {
          open_file = sym on;
          counted = refl;
          few_lines = omega arith;
          file_number = omega arith;
        };
        on = on;
        distinct = add-IsDistinct current_name l.entries d;
        five_files = omega (arith, count-add current_name l.entries, few);
        dir_fits = fits;
        texts_in = refl;
      })

pub create-Keeps :
    (os : LogOs) (n : ℕ) (l : Logger)
    → Works os
    → l.write_to_file ≡ true
    → n < 2 ^ 31
    → IsDistinct l.entries
    → count_files l.entries ≤ n
    → Succeeds (Keeps []) (create_log_file os l)
unfolding create_log_file
create-Keeps os n l w on h d few =
    let dir = os.home ++ (b'/' ∷ dir_name) in
    let room = length-append os.home (b'/' ∷ dir_name) in
    let there : Logger = record l { log_dir_name = dir } in
    if-true (Succeeds (Keeps [])) l.write_to_file
      (into_array 1024 dir >>= λ dir. open_log_file os l dir) (done l) on
      (into->>= (Keeps []) 1024 dir (λ dir. open_log_file os l dir)
        (omega (arith, room, w.home_fits))
        (into->>= (Keeps []) name_len (dir ++ current_name)
          (λ t. done (opened_file os (remove_logs os there).0))
          (omega (arith, room, w.home_fits, length-append dir current_name))
          (opened-Keeps os (remove_logs os there).0 w.opens_file
            ((remove_logs_keeps os there).0 ∙ on)
            (remove_logs-Tidy os n there w.opens_dir h
              (d, few, omega (arith, room, w.home_fits))))))
