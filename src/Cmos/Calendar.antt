-- ===== src/Cmos/Calendar.antt =====
-- The timestamp of cmos.c against the Gregorian calendar.
use os_2024_doors.Base.{
  ℕ, zero, suc, ◌+◌, ◌-◌, ◌*◌, ◌/◌, ◌%◌, ◌<◌, ◌≤◌, ◌≡◌, refl, ap, ◌∙◌, Bool, true, false, not, ◌&&◌,
  ◌||◌, [], ◌∷◌, ◌==◌, ltb, if◌then◌else◌, get_or, arith, all_below-true, ==_iff, Bool-cases, inl,
  inr, leb, leb→le,
}
use os_2024_doors.Cmos.{
  Time, Registers, days_table, days_since_epoch, timestamp, get_timestamp, read_rtc, from_bcd,
  hour_from_bcd, to_24_hour, full_year,
}

abbrev is_leap : ℕ → Bool
is_leap y = y % 4 == 0 && (not (y % 100 == 0) || y % 400 == 0)

-- The days of the first `n` years from 1970 on.
abbrev days_of_years : ℕ → ℕ
days_of_years zero = 0
days_of_years (suc n) = days_of_years n + (if is_leap (1970 + n) then 366 else 365)

abbrev month_length : Bool → ℕ → ℕ
month_length leap m =
    get_or (31 ∷ (if leap then 29 else 28) ∷ 31 ∷ 30 ∷ 31 ∷ 30 ∷ 31 ∷ 31 ∷ 30 ∷ 31 ∷ 30 ∷ 31 ∷ []) m
      0

-- The days of the first `m` months of a year.
abbrev days_of_months : Bool → ℕ → ℕ
days_of_months leap zero = 0
days_of_months leap (suc m) = days_of_months leap m + month_length leap m

-- The seconds from the start of 1970 to `t`.
abbrev pub calendar_seconds : Time → ℕ
calendar_seconds t =
    (((days_of_years (t.year - 1970) + days_of_months (is_leap t.year) (t.month - 1) + (t.day - 1))
              * 24
            + t.hour)
          * 60
        + t.minute)
      * 60
    + t.second

-- The fields are those of a time from 1970 to 2099.
pub record IsTime (t : Time) : Type 0 where
  pub year_ge : 1970 ≤ t.year
  pub year_le : t.year ≤ 2099
  pub month_ge : 1 ≤ t.month
  pub month_le : t.month ≤ 12
  pub day_ge : 1 ≤ t.day
  pub day_le : t.day ≤ 31
  pub hour_lt : t.hour < 24
  pub minute_lt : t.minute < 60
  pub second_lt : t.second < 60

abbrev every_fourth : ℕ → Bool
every_fourth y = y % 4 == 0

-- Up to 2099 every fourth year is a leap year.
year_ok : ℕ → Bool
year_ok n = days_of_years n == n * 365 + (n + 1) / 4

days_of_years-eq : (n : ℕ) → n < 130 → days_of_years n ≡ n * 365 + (n + 1) / 4
unfolding year_ok
days_of_years-eq n lt = (==_iff _ _).0 (all_below-true 130 year_ok refl n lt)

leap_ok : ℕ → Bool
leap_ok n = (if is_leap (1970 + n) then 1 else 0) + (n + 1) / 4 == (n + 2) / 4

leap_day : (n : ℕ) → n < 130 → (if is_leap (1970 + n) then 1 else 0) + (n + 1) / 4 ≡ (n + 2) / 4
unfolding leap_ok
leap_day n lt = (==_iff _ _).0 (all_below-true 130 leap_ok refl n lt)

month_ok : Bool → ℕ → Bool
month_ok leap m =
    days_of_months leap m
    == get_or days_table m 0 + (if ltb 2 (m + 1) then (if leap then 1 else 0) else 0)

days_of_months-eq :
    (leap : Bool) (m : ℕ)
    → m < 12
    → days_of_months leap m
      ≡ get_or days_table m 0 + (if ltb 2 (m + 1) then (if leap then 1 else 0) else 0)
unfolding month_ok
days_of_months-eq true m lt = (==_iff _ _).0 (all_below-true 12 (month_ok true) refl m lt)
days_of_months-eq false m lt = (==_iff _ _).0 (all_below-true 12 (month_ok false) refl m lt)

days_since_epoch-calendar :
    (n m d : ℕ)
    → n < 130
    → m < 12
    → days_since_epoch (1970 + n) (m + 1) (d + 1)
      ≡ days_of_years n + days_of_months (is_leap (1970 + n)) m + d
unfolding days_since_epoch
days_since_epoch-calendar n m d n_lt m_lt =
    let y = days_of_years-eq n n_lt in
    let l = leap_day n n_lt in
    let ms = days_of_months-eq (is_leap (1970 + n)) m m_lt in
    let m_at : m + 1 - 1 ≡ m = omega arith in
    elim (Bool-cases (ltb 2 (m + 1))) [
      | inl e ↦ let k = rw e at ms in rw (e, m_at) (omega (arith, y, l, k))
      | inr e ↦ let k = rw e at ms in rw (e, m_at) (omega (arith, y, k))
    ]

table_ok : ℕ → Bool
table_ok m = leb (get_or days_table m 0) 334

table_le : (m : ℕ) → m < 12 → get_or days_table m 0 ≤ 334
unfolding table_ok
table_le m lt = leb→le _ _ (all_below-true 12 table_ok refl m lt)

days_since_epoch_le :
    (y m d : ℕ) → y ≤ 2099 → m ≤ 12 → 1 ≤ m → d ≤ 31 → days_since_epoch y m d ≤ 47482
unfolding days_since_epoch
days_since_epoch_le y m d yl ml mg dl =
    let table = table_le (m - 1) (omega arith) in ground (arith, table)

-- From 1970 to 2099 the timestamp is the number of seconds since the start of 1970, by the
-- Gregorian calendar, with no wrap-around.
pub timestamp-calendar : (t : Time) → IsTime t → timestamp t ≡ calendar_seconds t
unfolding timestamp
timestamp-calendar t v =
    let n : ℕ = t.year - 1970 in
    let m : ℕ = t.month - 1 in
    let d : ℕ = t.day - 1 in
    let yn : 1970 + n ≡ t.year = omega (arith, v.year_ge) in
    let mn : m + 1 ≡ t.month = omega (arith, v.month_ge) in
    let dn : d + 1 ≡ t.day = omega (arith, v.day_ge) in
    let days =
      days_since_epoch-calendar n m d (omega (arith, v.year_le)) (omega (arith, v.month_le)) in
    let le = days_since_epoch_le t.year t.month t.day v.year_le v.month_le v.month_ge v.day_le in
    let same : days_since_epoch t.year t.month t.day
        ≡ days_of_years n + days_of_months (is_leap t.year) m + d =
      rw (yn, mn, dn) at days in
    omega (arith, le, same, v.hour_lt, v.minute_lt, v.second_lt)

-- A time as the clock's registers hold it, in binary or in binary-coded decimal.
abbrev coded : Bool → ℕ → ℕ
coded binary x = if binary then x else x / 10 * 16 + x % 10

-- The clock in 24-hour mode.
abbrev pub registers_of : Bool → Time → Registers
registers_of binary t = record {
  second = coded binary t.second;
  minute = coded binary t.minute;
  hour = coded binary t.hour;
  day = coded binary t.day;
  month = coded binary t.month;
  year = coded binary (t.year % 100);
  status = if binary then 6 else 2;
}

bcd : (x : ℕ) → x < 100 → from_bcd (x / 10 * 16 + x % 10) ≡ x
unfolding from_bcd
bcd x lt = omega arith

hour_bcd : (x : ℕ) → x < 80 → hour_from_bcd (x / 10 * 16 + x % 10) ≡ x
unfolding hour_from_bcd
hour_bcd x lt = omega arith

year_of : (y : ℕ) → 2024 ≤ y → y ≤ 2123 → full_year (y % 100) ≡ y
unfolding full_year
year_of y ge le = ground arith

-- From 2024 to 2123, `read_rtc` reads back a time that the registers hold in 24-hour mode, in
-- binary or in binary-coded decimal.
pub read_rtc-registers_of :
    (binary : Bool) (t : Time)
    → 2024 ≤ t.year
    → t.year ≤ 2123
    → t.month ≤ 12
    → t.day ≤ 31
    → t.hour < 24
    → t.minute < 60
    → t.second < 60
    → read_rtc (registers_of binary t) ≡ t
unfolding read_rtc to_24_hour
read_rtc-registers_of true t yg yl ml dl hl nl sl = rw (year_of t.year yg yl) refl
read_rtc-registers_of false t yg yl ml dl hl nl sl =
    rw
      (
        bcd (t.year % 100) (omega arith),
        year_of t.year yg yl,
        bcd t.month (omega arith),
        bcd t.day (omega arith),
        hour_bcd t.hour (omega arith),
        bcd t.minute (omega arith),
        bcd t.second (omega arith),
      )
      refl

-- From 2024 to 2099, with the clock in 24-hour mode, binary or in decimal, `get_timestamp` is the number of seconds since
-- the start of 1970, by the Gregorian calendar.
pub get_timestamp-calendar :
    (binary : Bool) (t : Time)
    → IsTime t
    → 2024 ≤ t.year
    → get_timestamp (registers_of binary t) ≡ calendar_seconds t
unfolding get_timestamp
get_timestamp-calendar binary t v ge =
    ap timestamp (
      read_rtc-registers_of binary t ge (omega (arith, v.year_le)) v.month_le v.day_le v.hour_lt
        v.minute_lt v.second_lt)
    ∙ timestamp-calendar t v
