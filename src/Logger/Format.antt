-- ===== src/Logger/Format.antt =====
-- src/utilities/utilities/logger.cpp: the constants of the logger and the texts that it prints.
use rpi_tcp_listener.Base.{ℕ, Option, none, some, [], ◌∷◌, ◌++◌, length, ltb, leb, if◌then◌else◌}
use rpi_tcp_listener.Base.Int.{pos, add_ℕ}
use rpi_tcp_listener.Base.Text.{Bytes, codes}
use rpi_tcp_listener.Base.Decimal.{print_int, pad_int}
use rpi_tcp_listener.Base.Outcome.{Outcome, done, fault, overflow}
use rpi_tcp_listener.Time.{Tm}

pub data LogLevel : Type 0 where
  info warning error screen max_level : LogLevel

abbrev pub log_level_str : LogLevel → Bytes
log_level_str info = codes "INF"
log_level_str warning = codes "WAR"
log_level_str error = codes "ERR"
log_level_str screen = codes "INF"
log_level_str max_level = []

abbrev pub name_len : ℕ
name_len = 3072

abbrev pub msg_len : ℕ
msg_len = 512

abbrev pub max_log_line_num : ℕ
max_log_line_num = 10000

abbrev pub max_log_files : ℕ
max_log_files = 5

-- `sprintf` into an array of `n` bytes.
abbrev pub into_array : ℕ → Bytes → Outcome Bytes
into_array n text = if ltb (length text) n then done text else fault overflow

-- "%d%02d%02d%02d%02d%02d" of `GetCompactTimestamp`.
unfoldable pub compact_timestamp : Tm → Bytes
unfolding print_int pad_int
compact_timestamp tm =
    print_int (add_ℕ tm.tm_year 1900)
    ++ (pad_int 2 (add_ℕ tm.tm_mon 1)
        ++ (pad_int 2 tm.tm_mday
            ++ (pad_int 2 tm.tm_hour ++ (pad_int 2 tm.tm_min ++ pad_int 2 tm.tm_sec))))

-- "%d-%02d-%02d %02d:%02d:%02d,%03ld" of `GetTimestamp`.
unfoldable pub timestamp : Tm → ℕ → Bytes
unfolding print_int pad_int
timestamp tm usec =
    print_int (add_ℕ tm.tm_year 1900)
    ++ (b'-'
        ∷ (pad_int 2 (add_ℕ tm.tm_mon 1)
            ++ (b'-'
                ∷ (pad_int 2 tm.tm_mday
                    ++ (b' '
                        ∷ (pad_int 2 tm.tm_hour
                            ++ (b':'
                                ∷ (pad_int 2 tm.tm_min
                                    ++ (b':'
                                        ∷ (pad_int 2 tm.tm_sec
                                            ++ (b',' ∷ pad_int 3 (pos usec))))))))))))

-- `memset` of `n` bytes in an array of `size`.
abbrev pub memset_array : ℕ → ℕ → Outcome (Unit {0})
memset_array size n = if leb n size then done tt else fault overflow

abbrev pub stored_name : Bytes → ℕ → Bytes
stored_name date count = codes "log_" ++ (date ++ (b'_' ∷ (pad_int 2 (pos count) ++ codes ".txt")))

-- KYEL, KRED and KGRN before the text, KNRM behind it.
abbrev pub colour : LogLevel → Option Bytes
colour warning = some (codes "\u{1b}[33m")
colour error = some (codes "\u{1b}[31m")
colour screen = some (codes "\u{1b}[32m")
colour _ = none

abbrev pub normal : Bytes
normal = codes "\u{1b}[0m"
