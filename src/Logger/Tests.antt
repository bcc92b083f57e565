-- ===== src/Logger/Tests.antt =====
-- Loggers on small directories, and the theorems of the parent at them.
use rpi_tcp_listener.Base.{◌≡◌, refl, none, inl, inr, true, false, some, List, [], ◌∷◌, arith}
use rpi_tcp_listener.Base.Int.{pos}
use rpi_tcp_listener.Base.Text.{Bytes, codes}
use rpi_tcp_listener.Base.Outcome.{done, fault, overflow}
use rpi_tcp_listener.Time.{Tm}
use rpi_tcp_listener.Logger.Format.{warning, compact_timestamp, stored_name}
use rpi_tcp_listener.Logger.Dir.{Entry, bytes_lt, has_name}
use rpi_tcp_listener.Logger.{Logger, LogOs, new_logger, log, log_text, remove_logs, rotate}
use rpi_tcp_listener.Logger.Rotation.{IsWellformed}
use rpi_tcp_listener.Logger.Entries.{IsDistinct}
use rpi_tcp_listener.Logger.Newest.{kind_of, remove_logs_lem}
use rpi_tcp_listener.Logger.Opened.{Works, Keeps}
use rpi_tcp_listener.Logger.Bounded.{new_logger-Keeps}
use rpi_tcp_listener.Logger.Chronology.{Shows, stored_name-lt}
use rpi_tcp_listener.Logger.Faults.{log_overruns}

abbrev noon : Tm
noon = record {
  tm_hour = pos 12;
  tm_min = pos 45;
  tm_sec = pos 50;
  tm_mday = pos 13;
  tm_mon = pos 5;
  tm_year = pos 111;
  tm_isdst = pos 0;
}

abbrev one_o_clock : Tm
one_o_clock = record noon { tm_hour = pos 13; tm_min = pos 0 }

abbrev os : LogOs
os = record {
  tm_now = some noon;
  tv_usec = 7000;
  opens_dir = true;
  renames = true;
  opens_file = true;
  home = codes "/root";
}

abbrev file : Bytes → Entry
file name = record { d_name = name; is_file = true }

abbrev five : List Entry
five =
    file (codes "d")
    ∷ file (codes "b")
    ∷ record { d_name = codes "."; is_file = false }
    ∷ file (codes "e")
    ∷ file (codes "a")
    ∷ file (codes "c")
    ∷ []

-- A logger that has just been made on an empty directory.
abbrev fresh : Logger
fresh = record {
  verbose_mode = false;
  write_to_file = true;
  has_file = true;
  log_dir_name = codes "/root/log/";
  file_count = 1;
  line_count = 0;
  entries = file (codes "log.txt") ∷ [];
  lines = [];
  printed = [];
}

abbrev crowded : Logger
crowded = record fresh { entries = five }

made : new_logger os [] true false ≡ done fresh
unfolding new_logger
made = refl

oldest_removed :
    (remove_logs os crowded).0.entries
    ≡ file (codes "d")
      ∷ file (codes "b")
      ∷ record { d_name = codes "."; is_file = false }
      ∷ file (codes "e")
      ∷ file (codes "c")
      ∷ []
unfolding remove_logs
oldest_removed = refl

rotated :
    rotate os (record fresh { line_count = 10000 })
    ≡ done (record fresh {
      file_count = 2;
      entries = file (codes "log.txt") ∷ file (codes "log_20110613124550_01.txt") ∷ [];
    })
unfolding rotate
rotated = refl

warned :
    log_text os 129 warning (codes "low\n") (record fresh { verbose_mode = true })
    ≡ done (record fresh {
      verbose_mode = true;
      line_count = 1;
      lines = codes "2011-06-13 12:45:50,007 [WAR]: low\n" ∷ [];
      printed = codes "\u{1b}[33m2011-06-13 12:45:50,007 [WAR]: low\n\u{1b}[0m\n" ∷ [];
    })
unfolding log_text
warned = refl

fresh-IsWellformed : IsWellformed fresh
fresh-IsWellformed = record {
  open_file = refl;
  counted = refl;
  few_lines = omega arith;
  file_number = omega arith;
}

five-IsDistinct : IsDistinct five
unfolding has_name
five-IsDistinct = (refl, (refl, (refl, (refl, (refl, (refl, tt))))))

-- "a" is the only regular file of `five` with four others behind it.
remove_logs_lem_example : kind_of (codes "a") (remove_logs os crowded).0.entries ≡ none
unfolding bytes_lt
remove_logs_lem_example = remove_logs_lem os crowded (codes "a") refl five-IsDistinct (omega arith)

noon-Shows :
    Shows noon (record { year = 2011; month = 6; day = 13; hour = 12; minute = 45; second = 50 })
noon-Shows = record {
  years = (refl, omega arith, omega arith);
  months = (refl, omega arith);
  days = (refl, omega arith);
  hours = (refl, omega arith);
  minutes = (refl, omega arith);
  seconds = (refl, omega arith);
}

noon-Works : Works os
noon-Works = record { opens_dir = refl; opens_file = refl; home_fits = omega arith }

new_logger-Keeps_example : (l : Logger) × (new_logger os five true false ≡ done l) × Keeps [] l
new_logger-Keeps_example = new_logger-Keeps os five false noon-Works five-IsDistinct (omega arith)

stored_name-lt_example :
    bytes_lt
      (stored_name (compact_timestamp noon) 4)
      (stored_name (compact_timestamp one_o_clock) 0)
    ≡ true
stored_name-lt_example =
    stored_name-lt noon one_o_clock
      (record { year = 2011; month = 6; day = 13; hour = 12; minute = 45; second = 50 })
      (record { year = 2011; month = 6; day = 13; hour = 13; minute = 0; second = 50 }) 4 0
      noon-Shows
      (record {
        years = (refl, omega arith, omega arith);
        months = (refl, omega arith);
        days = (refl, omega arith);
        hours = (refl, omega arith);
        minutes = (refl, omega arith);
        seconds = (refl, omega arith);
      })
      (inr (refl, inr (refl, inr (refl, inl (omega arith)))))

log_overruns_example : log os warning (codes "low\n") fresh ≡ fault overflow
log_overruns_example = log_overruns os warning (codes "low\n") fresh (inl refl) (λ e. cc)
