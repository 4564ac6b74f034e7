-- ===== src/Cmos.antt =====
-- cmos.c: the real-time clock. The registers are arguments, as they stand once no update is in
-- progress.
pub mod Calendar
mod Tests
use os_2024_doors.Base.{
  ℕ, ◌+◌, ◌-◌, ◌*◌, ◌/◌, ◌%◌, ◌^◌, Bool, not, ◌&&◌, List, [], ◌∷◌, ◌==◌, ltb, if◌then◌else◌, get_or,
}

abbrev pub current_year : ℕ
current_year = 2024

-- The registers 0x00, 0x02, 0x04, 0x07, 0x08, 0x09 and 0x0B, a byte each.
pub record Registers : Type 0 where
  pub second : ℕ
  pub minute : ℕ
  pub hour : ℕ
  pub day : ℕ
  pub month : ℕ
  pub year : ℕ
  pub status : ℕ

-- What `read_rtc` stores behind its pointers.
pub record Time : Type 0 where
  pub year : ℕ
  pub month : ℕ
  pub day : ℕ
  pub hour : ℕ
  pub minute : ℕ
  pub second : ℕ

-- (x & 0x0F) + ((x / 16) * 10)
unfoldable pub from_bcd : ℕ → ℕ
from_bcd x = x % 16 + x / 16 * 10

-- The same of the hour, whose bit 7 is kept: the sum is below 128, so `|` adds.
unfoldable pub hour_from_bcd : ℕ → ℕ
hour_from_bcd h = h % 16 + h / 16 % 8 * 10 + h / 128 % 2 * 128

-- registerB & 0x04 and registerB & 0x02
abbrev pub is_binary : ℕ → Bool
is_binary status = not (status / 4 % 2 == 0)

abbrev pub is_24_hour : ℕ → Bool
is_24_hour status = not (status / 2 % 2 == 0)

-- hour & 0x80
abbrev pub is_pm : ℕ → Bool
is_pm h = not (h / 128 % 2 == 0)

unfoldable pub to_24_hour : ℕ → ℕ → ℕ
to_24_hour status h = if not (is_24_hour status) && is_pm h then (h % 128 + 12) % 24 else h

unfoldable pub full_year : ℕ → ℕ
full_year y = let y' = y + current_year / 100 * 100 in if ltb y' current_year then y' + 100 else y'

abbrev pub decode : (ℕ → ℕ) → ℕ → ℕ → ℕ
decode f status x = if not (is_binary status) then f x else x

unfoldable pub read_rtc : Registers → Time
unfolding from_bcd hour_from_bcd to_24_hour full_year
read_rtc r = record {
  year = full_year (decode from_bcd r.status r.year);
  month = decode from_bcd r.status r.month;
  day = decode from_bcd r.status r.day;
  hour = to_24_hour r.status (decode hour_from_bcd r.status r.hour);
  minute = decode from_bcd r.status r.minute;
  second = decode from_bcd r.status r.second;
}

-- `days`: the days before each month of a common year.
abbrev pub days_table : List ℕ
days_table = 0 ∷ 31 ∷ 59 ∷ 90 ∷ 120 ∷ 151 ∷ 181 ∷ 212 ∷ 243 ∷ 273 ∷ 304 ∷ 334 ∷ []

-- `days[month - 1]` is in the array for the months 1 to 12.
unfoldable pub days_since_epoch : ℕ → ℕ → ℕ → ℕ
days_since_epoch year month day =
    (year - 1970) * 365
    + (year - 1969 + (if ltb 2 month then 1 else 0)) / 4
    + get_or days_table (month - 1) 0
    + (day - 1)

-- The sums and products are of type uint32_t; they are reduced once, at the end.
unfoldable pub timestamp : Time → ℕ
unfolding days_since_epoch
timestamp t =
    (((days_since_epoch t.year t.month t.day * 24 + t.hour) * 60 + t.minute) * 60 + t.second)
    % 2 ^ 32

unfoldable pub get_timestamp : Registers → ℕ
unfolding read_rtc timestamp
get_timestamp r = timestamp (read_rtc r)
