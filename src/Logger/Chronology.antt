-- ===== src/Logger/Chronology.antt =====
-- src/utilities/utilities/logger.cpp: the names of stored log files stand in the order of time.
use rpi_tcp_listener.Base.{
  ℕ, ◌≤◌, ◌<◌, ◌≡◌, refl, ◌∙◌, inl, inr, ◌⊎◌, true, ◌∷◌, ◌++◌, arith, [], ap, sym, length,
  append-nil,
}
use rpi_tcp_listener.Base.Int.{pos, add_ℕ}
use rpi_tcp_listener.Base.Text.{Bytes, codes}
use rpi_tcp_listener.Base.Decimal.{print_int, pad_int}
use rpi_tcp_listener.Time.{Tm}
use rpi_tcp_listener.Time.Digits.{two_digits, four_digits, pad-two, print-four}
use rpi_tcp_listener.Logger.Dir.{bytes_lt}
use rpi_tcp_listener.Logger.Format.{compact_timestamp, stored_name}

two-lt :
    (a b : ℕ) (xs ys : Bytes)
    → a < b
    → b < 100
    → bytes_lt (two_digits a ++ xs) (two_digits b ++ ys) ≡ true
unfolding bytes_lt
two-lt a b xs ys h k = ground arith

two-eq :
    (a : ℕ) (xs ys : Bytes) → bytes_lt (two_digits a ++ xs) (two_digits a ++ ys) ≡ bytes_lt xs ys
unfolding bytes_lt
two-eq a xs ys = ground arith

four-lt :
    (a b : ℕ) (xs ys : Bytes)
    → a < b
    → b < 10000
    → bytes_lt (four_digits a ++ xs) (four_digits b ++ ys) ≡ true
unfolding bytes_lt
four-lt a b xs ys h k = ground arith

four-eq :
    (a : ℕ) (xs ys : Bytes) → bytes_lt (four_digits a ++ xs) (four_digits a ++ ys) ≡ bytes_lt xs ys
unfolding bytes_lt
four-eq a xs ys = ground arith

-- A date and time as the calendar writes it.
pub record Date : Type 0 where
  pub year : ℕ
  pub month : ℕ
  pub day : ℕ
  pub hour : ℕ
  pub minute : ℕ
  pub second : ℕ

-- `localtime` gives the date, in a year of four digits.
pub record Shows (tm : Tm) (t : Date) : Type 0 where
  pub years : (add_ℕ tm.tm_year 1900 ≡ pos t.year) × (1000 ≤ t.year) × (t.year < 10000)
  pub months : (add_ℕ tm.tm_mon 1 ≡ pos t.month) × (t.month ≤ 12)
  pub days : (tm.tm_mday ≡ pos t.day) × (t.day ≤ 31)
  pub hours : (tm.tm_hour ≡ pos t.hour) × (t.hour < 24)
  pub minutes : (tm.tm_min ≡ pos t.minute) × (t.minute < 60)
  pub seconds : (tm.tm_sec ≡ pos t.second) × (t.second ≤ 60)

abbrev pub Earlier : Date → Date → Type 0
Earlier t u =
    (t.year < u.year)
    ⊎ ((t.year ≡ u.year)
        × ((t.month < u.month)
            ⊎ ((t.month ≡ u.month)
                × ((t.day < u.day)
                    ⊎ ((t.day ≡ u.day)
                        × ((t.hour < u.hour)
                            ⊎ ((t.hour ≡ u.hour)
                                × ((t.minute < u.minute)
                                    ⊎ ((t.minute ≡ u.minute) × (t.second < u.second))))))))))

abbrev date_text : Date → Bytes → Bytes
date_text t rest =
    four_digits t.year
    ++ (two_digits t.month
        ++ (two_digits t.day
            ++ (two_digits t.hour ++ (two_digits t.minute ++ (two_digits t.second ++ rest)))))

two-step :
    (a b : ℕ) (xs ys : Bytes)
    → b < 100
    → (a < b) ⊎ ((a ≡ b) × (bytes_lt xs ys ≡ true))
    → bytes_lt (two_digits a ++ xs) (two_digits b ++ ys) ≡ true
two-step a b xs ys k (inl h) = two-lt a b xs ys h k
two-step a b xs ys k (inr (e, h)) = rw e (two-eq b xs ys ∙ h)

four-step :
    (a b : ℕ) (xs ys : Bytes)
    → b < 10000
    → (a < b) ⊎ ((a ≡ b) × (bytes_lt xs ys ≡ true))
    → bytes_lt (four_digits a ++ xs) (four_digits b ++ ys) ≡ true
four-step a b xs ys k (inl h) = four-lt a b xs ys h k
four-step a b xs ys k (inr (e, h)) = rw e (four-eq b xs ys ∙ h)

later : {A E B C : Type 0} → (B → C) → A ⊎ (E × B) → A ⊎ (E × C)
later f (inl a) = inl a
later f (inr (e, b)) = inr (e, f b)

date_text-lt :
    (t u : Date) (xs ys : Bytes)
    → u.year < 10000
    → u.month < 100
    → u.day < 100
    → u.hour < 100
    → u.minute < 100
    → u.second < 100
    → Earlier t u
    → bytes_lt (date_text t xs) (date_text u ys) ≡ true
date_text-lt t u xs ys iy im id ih ii is e = four-step t.year u.year _ _ iy (
    later
      (λ e. two-step t.month u.month _ _ im (
        later
          (λ e. two-step t.day u.day _ _ id (
            later
              (λ e. two-step t.hour u.hour _ _ ih (
                later
                  (λ e.
                    two-step t.minute u.minute _ _ ii
                      (later (λ e. two-lt t.second u.second xs ys e is) e))
                  e))
              e))
          e))
      e)

compact_timestamp-text :
    (tm : Tm) (t : Date) (rest : Bytes)
    → Shows tm t
    → compact_timestamp tm ++ rest ≡ date_text t rest
unfolding compact_timestamp
compact_timestamp-text tm t rest s =
    let year : print_int (pos t.year) ≡ four_digits t.year =
      print-four t.year s.years.1 s.years.2 in
    rw
      (
        s.years.0,
        s.months.0,
        s.days.0,
        s.hours.0,
        s.minutes.0,
        s.seconds.0,
        year,
        pad-two t.month (omega (arith, s.months.1)),
        pad-two t.day (omega (arith, s.days.1)),
        pad-two t.hour (omega (arith, s.hours.1)),
        pad-two t.minute (omega (arith, s.minutes.1)),
        pad-two t.second (omega (arith, s.seconds.1)),
      )
      refl

pub length-compact_timestamp :
    (tm : Tm) (t : Date) → Shows tm t → length (compact_timestamp tm) ≡ 14
length-compact_timestamp tm t s =
    ap length (sym (append-nil (compact_timestamp tm)) ∙ compact_timestamp-text tm t [] s)

-- A log file stored at an earlier date has an earlier name, also if its number is the greater one,
-- while years have four digits.
pub stored_name-lt :
    (tm um : Tm) (t u : Date) (i j : ℕ)
    → Shows tm t
    → Shows um u
    → Earlier t u
    → bytes_lt (stored_name (compact_timestamp tm) i) (stored_name (compact_timestamp um) j) ≡ true
unfolding bytes_lt
stored_name-lt tm um t u i j s r e =
    let tail : ℕ → Bytes = λ (n : ℕ). b'_' ∷ (pad_int 2 (pos n) ++ codes ".txt") in
    rw (compact_timestamp-text tm t (tail i) s, compact_timestamp-text um u (tail j) r)
      (date_text-lt t u (tail i) (tail j) r.years.2 (omega (arith, r.months.1))
        (omega (arith, r.days.1)) (omega (arith, r.hours.1)) (omega (arith, r.minutes.1))
        (omega (arith, r.seconds.1)) e)
