-- ===== src/TimeUtils.antt =====
-- src/time_utils.cpp: the conversions between units, the differences, calendar time to seconds since
-- the epoch, and the unwrapping of 32-bit timestamps. The clocks are parameters.
pub mod Calendar
pub mod Difference
pub mod Unwrap
use librtcbase.Prelude.{
  ℕ, ◌+◌, ◌-◌, ◌*◌, ◌/◌, ◌%◌, ◌^◌, Bool, true, false, not, ◌&&◌, ◌||◌, Option, none, some, List, [],
  ◌∷◌, get_or, ltb, leb, ◌==◌, if◌then◌else◌, u32, u64,
}
use librtcbase.SafeConversions.{IntType, bits32, static_cast}
use librtcbase.Prelude.Int.{ℤ, pos, negsuc, ◌+ℤ◌, ◌-ℤ◌, ◌*ℤ◌, ltb_ℤ, pos_part, neg_part}

abbrev pub num_nanosecs_per_sec : ℕ
num_nanosecs_per_sec = 1000000000

abbrev pub num_nanosecs_per_millisec : ℕ
num_nanosecs_per_millisec = 1000000

abbrev pub num_nanosecs_per_microsec : ℕ
num_nanosecs_per_microsec = 1000

-- A timespec of the monotonic clock, in seconds and nanoseconds.
pub system_time_nanos : ℕ × ℕ → ℕ
system_time_nanos ts = num_nanosecs_per_sec * ts.0 + ts.1

-- `g_clock`, where it is set, takes the place of the system's clock.
pub time_nanos : Option ℕ → ℕ × ℕ → ℕ
time_nanos none ts = system_time_nanos ts
time_nanos (some nanos) ts = nanos

pub time_micros : Option ℕ → ℕ × ℕ → ℕ
time_micros clock ts = time_nanos clock ts / num_nanosecs_per_microsec

pub time_millis : Option ℕ → ℕ × ℕ → ℕ
time_millis clock ts = time_nanos clock ts / num_nanosecs_per_millisec

pub system_time_millis : ℕ × ℕ → ℕ
unfolding system_time_nanos
system_time_millis ts = system_time_nanos ts / num_nanosecs_per_millisec

-- A timeval of the time of day, in seconds and microseconds.
pub unix_time_micros : ℕ × ℕ → ℕ
unix_time_micros tv = tv.0 * 1000000 + tv.1

-- The difference is taken to stay in an int64_t.
pub time_diff : ℤ → ℤ → ℤ
time_diff later earlier = later -ℤ earlier

-- A uint32_t read as an int32_t.
abbrev pub as_int32 : ℕ → ℤ
as_int32 n = if ltb n (2 ^ 31) then pos n else negsuc (2 ^ 32 - n - 1)

pub time_diff32 : ℕ → ℕ → ℤ
time_diff32 later earlier = as_int32 ((later + 2 ^ 32 - earlier) % 2 ^ 32)

-- A value kept in an int, wrapped around at 32 bits. The language leaves a sum outside of an int open.
abbrev pub int : IntType
int = record { width = bits32; is_signed = true }

-- std::tm, with the fields that the code reads; each is an int.
pub record Tm : Type 0 where
  pub tm_year : ℤ
  pub tm_mon : ℤ
  pub tm_mday : ℤ
  pub tm_hour : ℤ
  pub tm_min : ℤ
  pub tm_sec : ℤ

abbrev pub mdays : List ℕ
mdays = 31 ∷ 28 ∷ 31 ∷ 30 ∷ 31 ∷ 30 ∷ 31 ∷ 31 ∷ 30 ∷ 31 ∷ 30 ∷ 31 ∷ []

abbrev pub cumul_mdays : List ℕ
cumul_mdays = 0 ∷ 31 ∷ 59 ∷ 90 ∷ 120 ∷ 151 ∷ 181 ∷ 212 ∷ 243 ∷ 273 ∷ 304 ∷ 334 ∷ []

abbrev pub is_leap : ℕ → Bool
is_leap year = year % 4 == 0 && (not (year % 100 == 0) || (year % 400 == 0))

abbrev pub one_if : Bool → ℕ
one_if b = if b then 1 else 0

-- What is computed once every field is in its range; `day` is 0-based.
pub seconds_of : ℕ → ℕ → ℕ → ℕ → ℕ → ℕ → ℕ
seconds_of year month day hour min sec =
    let leap_days = (year / 4 - 1970 / 4) + (year / 400 - 1970 / 400) - (year / 100 - 1970 / 100) in
    let day' =
      day + get_or cumul_mdays month 0 + leap_days - one_if (is_leap year && leb month 1) in
    ((((year - 1970) * 365 + day') * 24 + hour) * 60 + min) * 60 + sec

abbrev pub out_of : ℤ → ℕ → ℕ → Bool
out_of n low high = ltb_ℤ n (pos low) || ltb_ℤ (pos high) n

-- -1 when a field is out of its range.
pub tm_to_seconds : Tm → ℤ
unfolding seconds_of static_cast
tm_to_seconds tm =
    let year = static_cast int (tm.tm_year +ℤ pos 1900) in
    let month = tm.tm_mon in
    let day = static_cast int (tm.tm_mday -ℤ pos 1) in
    let expiry_in_leap_year = is_leap (pos_part year) in
    if ltb_ℤ year (pos 1970)
    then negsuc 0
    else if out_of month 0 11
    then negsuc 0
    else if ltb_ℤ day (pos 0)
        || not (
            ltb_ℤ day (
              pos (
                get_or mdays (pos_part month) 0
                + one_if (expiry_in_leap_year && (pos_part month == 2 - 1)))))
    then negsuc 0
    else if out_of tm.tm_hour 0 23
    then negsuc 0
    else if out_of tm.tm_min 0 59
    then negsuc 0
    else if out_of tm.tm_sec 0 59
    then negsuc 0
    else pos (
        seconds_of (pos_part year) (pos_part month) (pos_part day) (pos_part tm.tm_hour)
          (pos_part tm.tm_min) (pos_part tm.tm_sec))

-- TimestampWrapAroundHandler. A sum that leaves int64_t is not reached from `handler_init`.
pub record TimestampWrapAroundHandler : Type 0 where
  pub last_ts : ℕ
  pub num_wrap : ℤ

abbrev pub handler_init : TimestampWrapAroundHandler
handler_init = record { last_ts = 0; num_wrap = negsuc 0 }

-- The `_num_wrap << 32` that the code adds.
abbrev pub shift32 : ℤ → ℤ
shift32 n = n *ℤ pos (2 ^ 32)

abbrev pub eq_ℤ : ℤ → ℤ → Bool
eq_ℤ a b = (pos_part a + neg_part b) == (pos_part b + neg_part a)

-- The wrap count, incremented where the timestamp wrapped forwards.
pub next_wrap : TimestampWrapAroundHandler → ℕ → ℤ
next_wrap h ts =
    if leb 0xf0000000 h.last_ts && ltb ts 0x0fffffff then h.num_wrap +ℤ pos 1 else h.num_wrap

pub unwrap : TimestampWrapAroundHandler → ℕ → ℤ × TimestampWrapAroundHandler
unfolding next_wrap
unwrap h ts =
    if eq_ℤ h.num_wrap (negsuc 0)
    then (pos ts, record { last_ts = ts; num_wrap = pos 0 })
    else if ltb ts h.last_ts
    then (pos ts +ℤ shift32 (next_wrap h ts), record { last_ts = ts; num_wrap = next_wrap h ts })
    else if ltb 0xf0000000 (u32 (ts + 2 ^ 32 - h.last_ts))
    then (pos ts +ℤ shift32 (h.num_wrap -ℤ pos 1), h)
    else (pos ts +ℤ shift32 h.num_wrap, record { last_ts = ts; num_wrap = h.num_wrap })
