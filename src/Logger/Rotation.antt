-- ===== src/Logger/Rotation.antt =====
-- src/utilities/utilities/logger.cpp: the invariant of the logger.
use rpi_tcp_listener.Base.{◌≤◌, ◌<◌, ◌≡◌, refl, inl, inr, length, Bool-cases}
use rpi_tcp_listener.Logger.Format.{max_log_line_num, max_log_files}
use rpi_tcp_listener.Logger.{Logger, LogOs, remove_logs}

-- `file_m` is open while the logger writes to files, and it has as many lines as `line_count_m`
-- says, never more than 10000; the number of the file is one of five.
pub record IsWellformed (l : Logger) : Type 0 where
  pub open_file : l.has_file ≡ l.write_to_file
  pub counted : l.line_count ≡ length l.lines
  pub few_lines : l.line_count ≤ max_log_line_num
  pub file_number : l.file_count < max_log_files

pub remove_logs_keeps :
    (os : LogOs) (l : Logger)
    → ((remove_logs os l).0.write_to_file ≡ l.write_to_file)
      × ((remove_logs os l).0.file_count ≡ l.file_count)
unfolding remove_logs
remove_logs_keeps os l = elim (Bool-cases os.opens_dir) [
  | inl e ↦ rw e (refl, refl)
  | inr e ↦ rw e (refl, refl)
]
