-- ===== src/Logger/Bounded.antt =====
-- src/utilities/utilities/logger.cpp: the constructor of a logger whose system calls succeed.
use rpi_tcp_listener.Base.{◌^◌, ◌<◌, ◌≡◌, refl, Bool, true, false, List, [], arith}
use rpi_tcp_listener.Base.Outcome.{done, Succeeds-done}
use rpi_tcp_listener.Logger.Dir.{Entry}
use rpi_tcp_listener.Logger.Entries.{IsDistinct, count_files}
use rpi_tcp_listener.Logger.{Logger, LogOs, new_logger}
use rpi_tcp_listener.Logger.Opened.{Works, Keeps, create-Keeps}

-- The logger before the constructor's call of `CreateLogFile`.
abbrev begun : List Entry → Bool → Logger
begun entries verbose = record {
  verbose_mode = verbose;
  write_to_file = true;
  has_file = false;
  log_dir_name = [];
  file_count = 0;
  line_count = 0;
  entries = entries;
  lines = [];
  printed = [];
}

-- A logger that writes to files, made on any directory of less than 2 ^ 31 regular files whose
-- names differ, where the directory and the log file can be opened and the path of the directory
-- fits in its array: the constructor returns, at most five regular files are left in the
-- directory, and the logger is well-formed, with an empty file open.
pub new_logger-Keeps :
    (os : LogOs) (entries : List Entry) (verbose : Bool)
    → Works os
    → IsDistinct entries
    → count_files entries < 2 ^ 31
    → (l : Logger) × (new_logger os entries true verbose ≡ done l) × Keeps [] l
unfolding new_logger
new_logger-Keeps os entries verbose w d few =
    Succeeds-done (Keeps []) (new_logger os entries true verbose)
      (create-Keeps os (count_files entries) (begun entries verbose) w refl few d (omega arith))
