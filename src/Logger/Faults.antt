-- ===== src/Logger/Faults.antt =====
-- src/utilities/utilities/logger.cpp: the calls of `Log` that fail.
use rpi_tcp_listener.Base.{◌≡◌, ◌≢◌, ◌⊎◌, true, arith}
use rpi_tcp_listener.Base.Text.{Bytes}
use rpi_tcp_listener.Base.Outcome.{fault, overflow}
use rpi_tcp_listener.Logger.Format.{LogLevel, max_level}
use rpi_tcp_listener.Logger.{Logger, LogOs, log}

-- Every call of `Log` that has something to do writes behind an array: the `memset` of the 129
-- bytes of `acDate` clears 513.
pub log_overruns :
    (os : LogOs) (level : LogLevel) (msg : Bytes) (l : Logger)
    → (l.write_to_file ≡ true) ⊎ (l.verbose_mode ≡ true)
    → level ≢ max_level
    → log os level msg l ≡ fault overflow
unfolding log
log_overruns os level msg l on h = ground arith
