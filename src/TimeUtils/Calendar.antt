-- ===== src/TimeUtils/Calendar.antt =====
-- Seconds since the epoch against a count of the days, year by year and month by month.
use librtcbase.Prelude.{
  ℕ, zero, suc, ◌+◌, ◌-◌, ◌*◌, ◌/◌, ◌^◌, ◌≤◌, ◌<◌, ◌≡◌, ◌≢◌, ◌↔◌, refl, ap, ◌∙◌, Bool, true, false,
  not, ◌&&◌, ◌||◌, get_or, leb, ◌==◌, if◌then◌else◌, arith,
}
use librtcbase.Prelude.Bits.{every_below, eq_by_table}
use librtcbase.Prelude.Int.{ℤ, pos, negsuc, ◌≤ℤ◌, pos_part, +ℤ_parts, -ℤ_parts, ltb_ℤ, ◌+ℤ◌, ◌-ℤ◌}
use librtcbase.SafeConversions.{static_cast}
use librtcbase.SafeConversions.Laws.{cast_lem}
use librtcbase.TimeUtils.{
  Tm, int, out_of, mdays, cumul_mdays, is_leap, one_if, seconds_of, tm_to_seconds,
}

abbrev pub days_in_year : ℕ → ℕ
days_in_year year = if is_leap year then 366 else 365

-- The days from 1970 up to the year 1970 + n.
unfoldable pub days_before_year : ℕ → ℕ
days_before_year zero = 0
days_before_year (suc n) = days_before_year n + days_in_year (1970 + n)

abbrev pub days_in_month : Bool → ℕ → ℕ
days_in_month leap month = get_or mdays month 0 + one_if (leap && (month == 1))

-- The days of the year up to the month.
unfoldable pub days_before_month : Bool → ℕ → ℕ
days_before_month leap zero = 0
days_before_month leap (suc m) = days_before_month leap m + days_in_month leap m

years_lem :
    (n : ℕ)
    → days_before_year n + one_if (is_leap (1970 + n)) + ((1970 + n) / 100 - 1970 / 100)
      ≡ n * 365 + ((1970 + n) / 4 - 1970 / 4) + ((1970 + n) / 400 - 1970 / 400)
unfolding days_before_year
years_lem zero = refl
years_lem (suc n) = ground (arith, years_lem n)

months_lem :
    (leap : Bool) (month : ℕ)
    → month < 12
    → get_or cumul_mdays month 0 + one_if leap
      ≡ days_before_month leap month + one_if (leap && leb month 1)
unfolding days_before_month every_below
months_lem true month h =
    eq_by_table 12 (λ m. get_or cumul_mdays m 0 + 1)
      (λ m. days_before_month true m + one_if (leb m 1)) refl month h
months_lem false month h =
    eq_by_table 12 (λ m. get_or cumul_mdays m 0 + 0) (λ m. days_before_month false m + 0) refl month
      h

-- A moment of the year 1970 + n, the day counted from 0.
abbrev pub moment : ℕ → ℕ → ℕ → ℕ → ℕ → ℕ → Tm
moment n month day hour min sec = record {
  tm_year = pos (70 + n);
  tm_mon = pos month;
  tm_mday = pos (suc day);
  tm_hour = pos hour;
  tm_min = pos min;
  tm_sec = pos sec;
}

-- The days since the epoch, counted.
abbrev pub day_number : ℕ → ℕ → ℕ → ℕ
day_number n month day = days_before_year n + days_before_month (is_leap (1970 + n)) month + day

-- The sums of the code stay in an int.
in_int : (n : ℕ) → n < 2 ^ 31 → static_cast int (pos n) ≡ pos n
in_int n h = cast_lem int (pos n) (omega (arith, h))

year_lem : (n : ℕ) → 1970 + n < 2 ^ 31 → static_cast int (pos (70 + n) +ℤ pos 1900) ≡ pos (1970 + n)
unfolding ◌+ℤ◌
year_lem n h = ap (static_cast int) (ground arith) ∙ in_int (1970 + n) h

-- No month is longer than 31 days.
mdays_lem : (month : ℕ) → month < 12 → get_or mdays month 0 - 31 ≡ 0
unfolding every_below
mdays_lem month h = eq_by_table 12 (λ m. get_or mdays m 0 - 31) (λ m. 0) refl month h

day_lem : (day : ℕ) → day < 2 ^ 31 → static_cast int (pos (suc day) -ℤ pos 1) ≡ pos day
unfolding ◌-ℤ◌
day_lem day h = ap (static_cast int) (ground arith) ∙ in_int day h

out_of_lem : (x high : ℕ) → x < suc high → out_of (pos x) 0 high ≡ false
out_of_lem x high h = ground (arith, h)

years_at_least : (n : ℕ) → n * 365 ≤ days_before_year n
unfolding days_before_year
years_at_least zero = omega arith
years_at_least (suc n) = ground (arith, years_at_least n)

-- The leap days added up, less the one too many before March, make the count of days.
days_lem :
    (n month day c : ℕ)
    → month < 12
    → c ≡ get_or cumul_mdays month 0
    → (1970 + n - 1970) * 365
        + (day
            + c
            + (((1970 + n) / 4 - 1970 / 4)
                + ((1970 + n) / 400 - 1970 / 400)
                - ((1970 + n) / 100 - 1970 / 100))
            - one_if (is_leap (1970 + n) && leb month 1))
      ≡ day_number n month day
days_lem n month day c h e =
    ground (arith, years_lem n, years_at_least n, months_lem (is_leap (1970 + n)) month h, e)

-- A moment of a year from 1970 that fits in an int, each of its other fields in its range (the day
-- in that of its month and year), becomes the seconds since the epoch that counting the days gives,
-- year by year and month by month.
pub tm_to_seconds_lem :
    (n month day hour min sec : ℕ)
    → 1970 + n < 2 ^ 31
    → month < 12
    → day < days_in_month (is_leap (1970 + n)) month
    → hour < 24
    → min < 60
    → sec < 60
    → tm_to_seconds (moment n month day hour min sec)
      ≡ pos (((day_number n month day * 24 + hour) * 60 + min) * 60 + sec)
unfolding tm_to_seconds seconds_of
tm_to_seconds_lem n month day hour min sec hyear hmonth hday hhour hmin hsec =
    let year_test : ltb_ℤ (pos (1970 + n)) (pos 1970) ≡ false = ground arith in
    let day_test : (ltb_ℤ (pos day) (pos 0)
          || not (ltb_ℤ (pos day) (pos (days_in_month (is_leap (1970 + n)) month))))
        ≡ false =
      ground (arith, hday) in
    rw
      (
        year_lem n hyear,
        day_lem day (ground (arith, hday, mdays_lem month hmonth)),
        year_test,
        out_of_lem month 11 hmonth,
        day_test,
        out_of_lem hour 23 hhour,
        out_of_lem min 59 hmin,
        out_of_lem sec 59 hsec,
      )
      (ap (λ d. pos (((d * 24 + hour) * 60 + min) * 60 + sec))
        (days_lem n month day (get_or cumul_mdays month 0) hmonth refl))

-- The year and the day are ints from which the sums of the code stay in an int.
pub record FitsInt (tm : Tm) : Type 0 where
  pub year : (negsuc (2 ^ 31 - 1) ≤ℤ tm.tm_year) × (tm.tm_year ≤ℤ pos (2 ^ 31 - 1 - 1900))
  pub day : (negsuc (2 ^ 31 - 2) ≤ℤ tm.tm_mday) × (tm.tm_mday ≤ℤ pos (2 ^ 31 - 1))

year_in_int :
    (tm : Tm) → FitsInt tm → static_cast int (tm.tm_year +ℤ pos 1900) ≡ tm.tm_year +ℤ pos 1900
year_in_int tm h =
    cast_lem int (tm.tm_year +ℤ pos 1900) (omega (arith, h.year, +ℤ_parts tm.tm_year (pos 1900)))

day_in_int : (tm : Tm) → FitsInt tm → static_cast int (tm.tm_mday -ℤ pos 1) ≡ tm.tm_mday -ℤ pos 1
day_in_int tm h =
    cast_lem int (tm.tm_mday -ℤ pos 1) (omega (arith, h.day, -ℤ_parts tm.tm_mday (pos 1)))

-- Each field of the time is in its range, the year from 1970 on.
pub record InRange (tm : Tm) : Type 0 where
  pub year : pos 1970 ≤ℤ tm.tm_year +ℤ pos 1900
  pub month : (pos 0 ≤ℤ tm.tm_mon) × (tm.tm_mon ≤ℤ pos 11)
  pub day :
      (pos 1 ≤ℤ tm.tm_mday)
      × (tm.tm_mday
          ≤ℤ pos (days_in_month (is_leap (pos_part (tm.tm_year +ℤ pos 1900))) (pos_part tm.tm_mon)))
  pub hour : (pos 0 ≤ℤ tm.tm_hour) × (tm.tm_hour ≤ℤ pos 23)
  pub min : (pos 0 ≤ℤ tm.tm_min) × (tm.tm_min ≤ℤ pos 59)
  pub sec : (pos 0 ≤ℤ tm.tm_sec) × (tm.tm_sec ≤ℤ pos 59)

-- A value comes out of the tests exactly when all of them are passed.
passes :
    (a b c d e f : Bool) (n : ℕ)
    → ((if a
          then negsuc 0
          else if b
          then negsuc 0
          else if c
          then negsuc 0
          else if d
          then negsuc 0
          else if e
          then negsuc 0
          else if f
          then negsuc 0
          else pos n)
        ≢ negsuc 0)
      ↔ (a ≡ false) × (b ≡ false) × (c ≡ false) × (d ≡ false) × (e ≡ false) × (f ≡ false)
passes true b c d e f n = ground arith
passes false true c d e f n = ground arith
passes false false true d e f n = ground arith
passes false false false true e f n = ground arith
passes false false false false true f n = ground arith
passes false false false false false true n = ground arith
passes false false false false false false n = ground arith

out_of_iff : (x : ℤ) (high : ℕ) → (out_of x 0 high ≡ false) ↔ (pos 0 ≤ℤ x) × (x ≤ℤ pos high)
out_of_iff x high = ground arith

year_iff : (y : ℤ) → (ltb_ℤ y (pos 1970) ≡ false) ↔ (pos 1970 ≤ℤ y)
year_iff y = ground arith

day_iff :
    (d : ℤ) (n : ℕ)
    → ((ltb_ℤ (d -ℤ pos 1) (pos 0) || not (ltb_ℤ (d -ℤ pos 1) (pos n))) ≡ false)
      ↔ (pos 1 ≤ℤ d) × (d ≤ℤ pos n)
day_iff d n = ground (arith, -ℤ_parts d (pos 1))

-- For every time from which the sums of the code stay in an int (tm_year at most INT_MAX - 1900,
-- tm_mday other than INT_MIN), tm_to_seconds gives something other than -1 exactly when the year is
-- 1970 or later and every field is in its range, the day in that of its month and year.
pub tm_to_seconds_iff : (tm : Tm) → FitsInt tm → (tm_to_seconds tm ≢ negsuc 0) ↔ InRange tm
unfolding tm_to_seconds
tm_to_seconds_iff tm h =
    let year = tm.tm_year +ℤ pos 1900 in
    let days = days_in_month (is_leap (pos_part year)) (pos_part tm.tm_mon) in
    rw (year_in_int tm h, day_in_int tm h)
      (let split = passes _ _ _ _ _ _ _ in
        (
          λ h.
              let t = split.0 h in
              record {
                year = (year_iff year).0 t.0;
                month = (out_of_iff tm.tm_mon 11).0 t.1;
                day = (day_iff tm.tm_mday days).0 t.2;
                hour = (out_of_iff tm.tm_hour 23).0 t.3;
                min = (out_of_iff tm.tm_min 59).0 t.4;
                sec = (out_of_iff tm.tm_sec 59).0 t.5;
              },
          λ r. split.1 (
            (year_iff year).1 r.year,
            (out_of_iff tm.tm_mon 11).1 r.month,
            (day_iff tm.tm_mday days).1 r.day,
            (out_of_iff tm.tm_hour 23).1 r.hour,
            (out_of_iff tm.tm_min 59).1 r.min,
            (out_of_iff tm.tm_sec 59).1 r.sec,
          ),
        ))
