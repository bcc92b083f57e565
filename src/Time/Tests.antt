-- ===== src/Time/Tests.antt =====
-- Runs of the clock on concrete times, and the theorems of the parent at them.
use rpi_tcp_listener.Base.{◌≡◌, refl, true, [], some, arith}
use rpi_tcp_listener.Base.Int.{pos}
use rpi_tcp_listener.Base.Text.{Bytes, codes, atoi}
use rpi_tcp_listener.Base.Outcome.{done}
use rpi_tcp_listener.Time.{
  Tm, Clock, time_wrong_format, time_set_ok, time_get_ok, get_time, set_time,
}
use rpi_tcp_listener.Time.RoundTrip.{set_time-get_time}

abbrev noon : Tm
noon = record {
  tm_hour = pos 12;
  tm_min = pos 45;
  tm_sec = pos 50;
  tm_mday = pos 13;
  tm_mon = pos 5;
  tm_year = pos 111;
  tm_isdst = pos 0;
}

abbrev summer : Tm
summer = record noon { tm_isdst = pos 1 }

-- A clock that always shows noon in summer time, and counts the seconds of a day.
abbrev sundial : Clock
sundial = record { localtime = λ t. some summer; mktime = λ tm. tm.tm_sec; settable = λ t. true }

noon_text : get_time sundial (pos 7) [] ≡ done (time_get_ok, codes "12:45:50_13.06.2011")
unfolding get_time
noon_text = refl

set_evening : set_time sundial (pos 7) (codes "23:59:08_31.12.1999") ≡ (time_set_ok, pos 8)
unfolding set_time atoi
set_evening = refl

-- The format that a comment of `SetTime` gives has dashes.
set_dashes : set_time sundial (pos 7) (codes "00:00:00_01-01-2016") ≡ (time_wrong_format, pos 7)
unfolding set_time
set_dashes = refl

set_time-get_time_example :
    (text : Bytes) × (get_time sundial (pos 7) [] ≡ done (time_get_ok, text))
    × (set_time sundial (pos 9) text ≡ (time_set_ok, pos 50))
set_time-get_time_example =
    set_time-get_time sundial (pos 7) (pos 9) summer summer [] refl refl
      (record {
        hour = omega arith;
        min = omega arith;
        sec = omega arith;
        mday = omega arith;
        mon = omega arith;
        year = omega arith;
      })
      refl
