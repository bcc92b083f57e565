-- ===== src/Time.antt =====
-- src/utilities/utilities/time.{h,cpp}: the clock as text, printed and set.
--
-- `time`, `localtime`, `mktime` and `settimeofday` are the parameter `Clock`. The text is that of
-- `sprintf` into an array of 32 bytes.
pub mod Digits
pub mod RoundTrip
mod Tests
use rpi_tcp_listener.Base.{
  ℕ, Bool, true, false, ◌&&◌, Option, none, some, List, [], ◌∷◌, ◌++◌, length, take, drop, get_or,
  leb, ltb, ◌==◌, if◌then◌else◌,
}
use rpi_tcp_listener.Base.Int.{ℤ, add_ℕ, sub_ℕ}
use rpi_tcp_listener.Base.Text.{Bytes, is_digit, atoi}
use rpi_tcp_listener.Base.Decimal.{pad_int}
use rpi_tcp_listener.Base.Outcome.{Outcome, done, fault, overflow}

pub data TimeStatus : Type 0 where
  time_nok time_wrong_format time_set_ok time_get_ok : TimeStatus

-- `struct tm`, without the fields that the code leaves alone and mktime works out; `tm_isdst` is
-- left alone and used.
pub record Tm : Type 0 where
  pub tm_hour : ℤ
  pub tm_min : ℤ
  pub tm_sec : ℤ
  pub tm_mday : ℤ
  pub tm_mon : ℤ
  pub tm_year : ℤ
  pub tm_isdst : ℤ

-- `localtime` may return a null pointer, and `settimeofday` may refuse.
pub record Clock : Type 0 where
  pub localtime : ℤ → Option Tm
  pub mktime : Tm → ℤ
  pub settable : ℤ → Bool

abbrev digit_at : Bytes → ℕ → Bool
digit_at time i = is_digit (get_or time i 0)

abbrev char_is : Bytes → ℕ → ℕ → Bool
char_is time i c = get_or time i 0 == c

-- `IsCorrectTimeFormat`.
unfoldable pub is_correct_time_format : Bytes → Bool
is_correct_time_format time =
    length time == 19
    && digit_at time 0
    && digit_at time 1
    && char_is time 2 b':'
    && digit_at time 3
    && digit_at time 4
    && char_is time 5 b':'
    && digit_at time 6
    && digit_at time 7
    && char_is time 8 b'_'
    && digit_at time 9
    && digit_at time 10
    && char_is time 11 b'.'
    && digit_at time 12
    && digit_at time 13
    && char_is time 14 b'.'
    && digit_at time 15
    && digit_at time 16
    && digit_at time 17
    && digit_at time 18

-- The format "%02d:%02d:%02d_%02d.%02d.%04d".
unfoldable pub format_time : Tm → Bytes
unfolding pad_int
format_time tm =
    pad_int 2 tm.tm_hour
    ++ (b':'
        ∷ (pad_int 2 tm.tm_min
            ++ (b':'
                ∷ (pad_int 2 tm.tm_sec
                    ++ (b'_'
                        ∷ (pad_int 2 tm.tm_mday
                            ++ (b'.'
                                ∷ (pad_int 2 (add_ℕ tm.tm_mon 1)
                                    ++ (b'.' ∷ pad_int 4 (add_ℕ tm.tm_year 1900))))))))))

-- `GetTime` at the time `now`: the status, and what it leaves in `time_string`.
unfoldable pub get_time : Clock → ℤ → Bytes → Outcome (TimeStatus × Bytes)
unfolding format_time
get_time clock now time_string = elim (clock.localtime now) [
  | none ↦ done (time_nok, time_string)
  | some tm ↦
      let text = format_time tm in
      if ltb (length text) 32 then done (time_get_ok, text) else fault overflow
]

-- `atoi(time_string.substr(i, n).c_str())`.
abbrev number_at : Bytes → ℕ → ℕ → ℤ
number_at time i n = atoi (take n (drop i time))

-- The six fields that `SetTime` overwrites.
abbrev pub with_time : Tm → Bytes → Tm
with_time tm time = record tm {
  tm_hour = number_at time 0 2;
  tm_min = number_at time 3 2;
  tm_sec = number_at time 6 2;
  tm_mday = number_at time 9 2;
  tm_mon = sub_ℕ (number_at time 12 2) 1;
  tm_year = sub_ℕ (number_at time 15 4) 1900;
}

-- `SetTime` at the time `now`: the status, and the time of the clock behind it.
unfoldable pub set_time : Clock → ℤ → Bytes → TimeStatus × ℤ
unfolding is_correct_time_format
set_time clock now time_string =
    if is_correct_time_format time_string
    then (elim (clock.localtime now) [
      | none ↦ (time_nok, now)
      | some tm ↦
          let tv = clock.mktime (with_time tm time_string) in
          if clock.settable tv then (time_set_ok, tv) else (time_nok, now)
    ])
    else (time_wrong_format, now)
