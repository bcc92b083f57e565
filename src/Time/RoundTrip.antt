-- ===== src/Time/RoundTrip.antt =====
-- The text that `GetTime` writes is one that `SetTime` reads.
use rpi_tcp_listener.Base.{
  ℕ, ◌+◌, ◌/◌, ◌<◌, ◌≡◌, refl, true, some, ◌∷◌, ◌++◌, arith, length, ◌∙◌, ltb,
}
use rpi_tcp_listener.Base.Int.{ℤ, pos, negsuc, add_ℕ, sub_ℕ}
use rpi_tcp_listener.Base.Text.{Bytes}
use rpi_tcp_listener.Base.Outcome.{done}
use rpi_tcp_listener.Time.{
  Tm, Clock, time_get_ok, time_set_ok, is_correct_time_format, format_time, get_time, set_time,
  with_time,
}
use rpi_tcp_listener.Time.Digits.{
  two_digits, four_digits, pad-two, pad-four, atoi-two, atoi-four, is_digit-mod, is_digit-small,
}

abbrev InRange : ℕ → ℤ → Type 0
InRange b (pos n) = n < b
InRange b (negsuc n) = ⊥

-- What `localtime` promises of its fields, and a year of four digits.
pub record IsCalendar (tm : Tm) : Type 0 where
  pub hour : InRange 24 tm.tm_hour
  pub min : InRange 60 tm.tm_min
  pub sec : InRange 61 tm.tm_sec
  pub mday : InRange 32 tm.tm_mday
  pub mon : InRange 12 tm.tm_mon
  pub year : InRange 10000 (add_ℕ tm.tm_year 1900)

-- The text of a time with the given fields, month and year as printed.
abbrev time_text : ℕ → ℕ → ℕ → ℕ → ℕ → ℕ → Bytes
time_text h m s d mo y =
    two_digits h
    ++ (b':'
        ∷ (two_digits m
            ++ (b':'
                ∷ (two_digits s
                    ++ (b'_'
                        ∷ (two_digits d ++ (b'.' ∷ (two_digits mo ++ (b'.' ∷ four_digits y)))))))))

time_text_correct :
    (h m s d mo y : ℕ)
    → h < 100
    → m < 100
    → s < 100
    → d < 100
    → mo < 100
    → y < 10000
    → is_correct_time_format (time_text h m s d mo y) ≡ true
unfolding is_correct_time_format
time_text_correct h m s d mo y ih im is id io iy =
    let h0 = is_digit-small (h / 10) (omega arith) in
    let m0 = is_digit-small (m / 10) (omega arith) in
    let s0 = is_digit-small (s / 10) (omega arith) in
    let d0 = is_digit-small (d / 10) (omega arith) in
    let o0 = is_digit-small (mo / 10) (omega arith) in
    let y0 = is_digit-small (y / 1000) (omega arith) in
    rw
      (
        h0,
        is_digit-mod h,
        m0,
        is_digit-mod m,
        s0,
        is_digit-mod s,
        d0,
        is_digit-mod d,
        o0,
        is_digit-mod mo,
        y0,
        is_digit-mod (y / 100),
        is_digit-mod (y / 10),
        is_digit-mod y,
      )
      refl

-- The text that `GetTime` writes.
format_time-text :
    (tm : Tm) (h m s d mo y : ℕ)
    → tm.tm_hour ≡ pos h
    → tm.tm_min ≡ pos m
    → tm.tm_sec ≡ pos s
    → tm.tm_mday ≡ pos d
    → add_ℕ tm.tm_mon 1 ≡ pos mo
    → add_ℕ tm.tm_year 1900 ≡ pos y
    → h < 100
    → m < 100
    → s < 100
    → d < 100
    → mo < 100
    → y < 10000
    → format_time tm ≡ time_text h m s d mo y
unfolding format_time
format_time-text tm h m s d mo y eh em es ed eo ey ih im is id io iy =
    rw
      (
        eh,
        em,
        es,
        ed,
        eo,
        ey,
        pad-two h ih,
        pad-two m im,
        pad-two s is,
        pad-two d id,
        pad-two mo io,
        pad-four y iy,
      )
      refl

-- What the fields become when `SetTime` reads a text of that form.
with_time-text :
    (tm : Tm) (h m s d mo y : ℕ)
    → h < 100
    → m < 100
    → s < 100
    → d < 100
    → mo < 100
    → y < 10000
    → with_time tm (time_text h m s d mo y) ≡ record tm {
      tm_hour = pos h;
      tm_min = pos m;
      tm_sec = pos s;
      tm_mday = pos d;
      tm_mon = sub_ℕ (pos mo) 1;
      tm_year = sub_ℕ (pos y) 1900;
    }
with_time-text tm h m s d mo y ih im is id io iy =
    rw (atoi-two h ih, atoi-two m im, atoi-two s is, atoi-two d id, atoi-two mo io, atoi-four y iy)
      refl

InRange-pos : (b : ℕ) (z : ℤ) → InRange b z → (n : ℕ) × (z ≡ pos n) × (n < b)
InRange-pos b (pos n) h = (n, refl, h)
InRange-pos b (negsuc n) h = absurd h

sub-add : (z : ℤ) (n m : ℕ) → add_ℕ z n ≡ pos m → sub_ℕ (pos m) n ≡ z
sub-add (pos a) n m h = ground arith
sub-add (negsuc a) n m h = ground arith

InRange-add : (z : ℤ) → InRange 12 z → (n : ℕ) × (add_ℕ z 1 ≡ pos n) × (n < 13)
InRange-add (pos n) h = (n + 1, refl, omega arith)
InRange-add (negsuc n) h = absurd h

get_time-text :
    (clock : Clock) (now : ℤ) (tm : Tm) (old text : Bytes)
    → clock.localtime now ≡ some tm
    → format_time tm ≡ text
    → ltb (length text) 32 ≡ true
    → get_time clock now old ≡ done (time_get_ok, text)
unfolding get_time
get_time-text clock now tm old text e f l = rw (e, get_time, f, l) refl

set_time-text :
    (clock : Clock) (later : ℤ) (u v : Tm) (text : Bytes)
    → clock.localtime later ≡ some u
    → is_correct_time_format text ≡ true
    → with_time u text ≡ v
    → clock.settable (clock.mktime v) ≡ true
    → set_time clock later text ≡ (time_set_ok, clock.mktime v)
unfolding set_time
set_time-text clock later u v text e f g h = rw (f, e, g, h) refl

-- The text that `GetTime` gives at one time, while the calendar's year has at most four digits,
-- sets the clock when it comes back through `SetTime` at another, if the kernel accepts that time:
-- the format is right, and mktime gets the six fields of the first time, under the daylight saving
-- flag of the second.
pub set_time-get_time :
    (clock : Clock) (now later : ℤ) (tm u : Tm) (old : Bytes)
    → clock.localtime now ≡ some tm
    → clock.localtime later ≡ some u
    → IsCalendar tm
    → clock.settable (clock.mktime (record tm { tm_isdst = u.tm_isdst })) ≡ true
    → (text : Bytes) × (get_time clock now old ≡ done (time_get_ok, text))
      × (set_time clock later text
          ≡ (time_set_ok, clock.mktime (record tm { tm_isdst = u.tm_isdst })))
set_time-get_time clock now later tm u old e f c ok =
    let (h, eh, ih) = InRange-pos 24 tm.tm_hour c.hour in
    let (m, em, im) = InRange-pos 60 tm.tm_min c.min in
    let (s, es, is) = InRange-pos 61 tm.tm_sec c.sec in
    let (d, ed, id) = InRange-pos 32 tm.tm_mday c.mday in
    let (mo, eo, io) = InRange-add tm.tm_mon c.mon in
    let (y, ey, iy) = InRange-pos 10000 (add_ℕ tm.tm_year 1900) c.year in
    let h' : h < 100 = omega arith in
    let m' : m < 100 = omega arith in
    let s' : s < 100 = omega arith in
    let d' : d < 100 = omega arith in
    let o' : mo < 100 = omega arith in
    let fields : with_time u (time_text h m s d mo y) ≡ record tm { tm_isdst = u.tm_isdst } =
      with_time-text u h m s d mo y h' m' s' d' o' iy
      ∙ rw (sub-add tm.tm_mon 1 mo eo, sub-add tm.tm_year 1900 y ey, eh, em, es, ed) refl in
    (
      time_text h m s d mo y,
      get_time-text clock now tm old (time_text h m s d mo y) e
          (format_time-text tm h m s d mo y eh em es ed eo ey h' m' s' d' o' iy) refl,
      set_time-text clock later u (record tm { tm_isdst = u.tm_isdst }) (time_text h m s d mo y) f
          (time_text_correct h m s d mo y h' m' s' d' o' iy) fields ok,
    )
