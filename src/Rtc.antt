-- ===== src/Rtc.antt =====
-- The real-time clock, kernel/arch/i386/drivers/rtc/rtc.c. The registers of the chip are the record
-- Cmos; what the chip shows while it is polled is a list of readings. Years and months are numbers,
-- and a byte is a number below 256.
pub mod Dates
pub mod Modes
pub mod RoundTrip
mod Tests
use panuti.Base.{
  ℕ, zero, suc, ◌+◌, ◌-◌, ◌*◌, ◌/◌, ◌%◌, Bool, true, false, not, ◌&&◌, ◌||◌, List, [], ◌∷◌, Option,
  none, some, test_bit, ◌==◌, ltb, leb, if◌then◌else◌,
}
use panuti.Base.Int.{ℤ, pos, negsuc}

-- The time fields, as the chip holds them or as `rtc_datetime_t` does.
pub record Fields : Type 0 where
  pub second : ℕ
  pub minute : ℕ
  pub hour : ℕ
  pub day : ℕ
  pub month : ℕ
  pub year : ℕ

pub record Cmos : Type 0 where
  pub fields : Fields
  pub century : ℕ
  pub regb : ℕ

-- The bits RTC_24H_S and RTC_BCD_S of register B.
abbrev pub hours24 : ℕ → Bool
hours24 regb = test_bit regb 1

abbrev pub binary : ℕ → Bool
binary regb = test_bit regb 2

unfoldable pub to_bcd : ℕ → ℕ
to_bcd value = (value / 10 * 16 + value % 10) % 256

unfoldable pub from_bcd : ℕ → ℕ
from_bcd value = value % 16 + value / 16 * 10

-- A register that holds `value`, read in the mode of the chip.
abbrev pub from_mode : (regb value : ℕ) → ℕ
from_mode regb value = if binary regb then value else from_bcd value

abbrev pub to_mode : (regb value : ℕ) → ℕ
to_mode regb value = if binary regb then value else to_bcd value

abbrev pub is_century : ℕ → Bool
is_century c = leb 19 c && leb c 99

-- Whether `read_century` finds a century, which is -1 otherwise.
abbrev pub has_century : Cmos → Bool
has_century c = is_century (from_mode c.regb c.century)

unfoldable pub is_leap_year : ℕ → Bool
is_leap_year year =
    if year % 400 == 0 then true else if year % 100 == 0 then false else year % 4 == 0

unfoldable pub days_in_month : (month year : ℕ) → ℕ
days_in_month month year =
    if (month == 4) || (month == 6) || (month == 9) || (month == 11)
    then 30
    else if month == 2
    then (if is_leap_year year then 29 else 28)
    else if (month == 0) || ltb 12 month
    then 30
    else 31

abbrev pub same_fields : Fields → Fields → Bool
same_fields a b =
    (a.second == b.second)
    && (a.minute == b.minute)
    && (a.hour == b.hour)
    && (a.day == b.day)
    && (a.month == b.month)
    && (a.year == b.year)

-- The loop of `read_rtc`, which goes on until two readings agree.
unfoldable pub settle : Fields → List Fields → Option Fields
settle last [] = none
settle last (r ∷ rs) = let rest = settle r rs in if same_fields last r then some r else rest

-- The bit RTC_PMH of an hour.
abbrev pub is_pm : ℕ → Bool
is_pm hour = leb 128 hour

-- `from_bcd(dt.hour & 0x7F) | (dt.hour & 0x80)`: the first part is below 128.
abbrev pub hour_from_bcd : ℕ → ℕ
hour_from_bcd hour = from_bcd (hour % 128) + (if is_pm hour then 128 else 0)

-- The hour of a register, whether the chip counts to 24 and whether it counts in binary.
unfoldable pub read_hour : (to24 in_binary : Bool) → ℕ → ℕ
read_hour to24 in_binary hour =
    let h = if in_binary then hour else hour_from_bcd hour in
    if to24 then h else if is_pm h then (h % 128 + 12) % 24 else if h == 12 then 0 else h

abbrev pub read_year : (century year : ℕ) → ℕ
read_year century year =
    if is_century century
    then century * 100 + year
    else if ltb year 70
    then year + 2000
    else year + 1900

-- The end of `read_rtc`, from the readings that agreed.
unfoldable pub decode : (regb century : ℕ) → Fields → Fields
decode regb century f = record {
  second = from_mode regb f.second;
  minute = from_mode regb f.minute;
  hour = read_hour (hours24 regb) (binary regb) f.hour;
  day = from_mode regb f.day;
  month = from_mode regb f.month;
  year = read_year (from_mode regb century) (from_mode regb f.year);
}

-- `read_rtc`; register B and the century are read once.
unfoldable pub read_rtc : (regb century : ℕ) → Fields → List Fields → Option Fields
read_rtc regb century first rs = elim (settle first rs) as (λ _. Option Fields) [
  | none ↦ none
  | some f ↦ some (decode regb century f)
]

abbrev pub year_length : ℕ → ℕ
year_length y = if is_leap_year y then 366 else 365

-- The loops of `rtc_cur_timestamp`, with the rounds that are left.
unfoldable pub sum_years : (left y days : ℕ) → ℕ
sum_years zero y days = days
sum_years (suc left) y days = sum_years left (y + 1) (days + year_length y)

unfoldable pub sum_months : (left m year days : ℕ) → ℕ
sum_months zero m year days = days
sum_months (suc left) m year days = sum_months left (m + 1) year (days + days_in_month m year)

-- The rest of `rtc_cur_timestamp`, in hundredths of a second; `day` is at least 1 in a valid date.
unfoldable pub timestamp : Fields → ℕ
timestamp f =
    let days = sum_months (f.month - 1) 1 f.year (sum_years (f.year - 1970) 1970 0) + (f.day - 1) in
    (days * 86400 + f.hour * 3600 + f.minute * 60 + f.second) * 100

-- `rtc_cur_timestamp`
unfoldable pub cur_timestamp : (regb century : ℕ) → Fields → List Fields → Option ℕ
cur_timestamp regb century first rs = elim (read_rtc regb century first rs) as (λ _. Option ℕ) [
  | none ↦ none
  | some f ↦ some (timestamp f)
]

-- What a search for the year or the month finds, with the days that are left.
pub data Search : Type 0 where
  found : (unit days : ℕ) → Search
  refused stuck : Search

-- The loops of `rtc_set_timestamp`.
unfoldable pub find_year : ℕ → (year days : ℕ) → Search
find_year zero year days = stuck
find_year (suc fuel) year days =
    let later = find_year fuel (year + 1) (days - year_length year) in
    if leb (year_length year) days
    then (if leb 9999 year then refused else later)
    else found year days

unfoldable pub find_month : ℕ → (month year days : ℕ) → Search
find_month zero month year days = stuck
find_month (suc fuel) month year days =
    let later = find_month fuel (month + 1) year (days - days_in_month month year) in
    if leb (days_in_month month year) days then later else found month days

-- The hour in the mode of the chip.
abbrev pub hour12 : ℕ → ℕ
hour12 hour = if hour % 12 == 0 then 12 else hour % 12

unfoldable pub write_hour : (to24 in_binary : Bool) → ℕ → ℕ
write_hour to24 in_binary hour =
    let h = if to24 then hour else hour12 hour in
    (if in_binary then h else to_bcd h) + (if to24 then 0 else if leb 12 hour then 128 else 0)

-- The registers that `rtc_set_timestamp` writes for a date.
unfoldable pub encode : Cmos → Fields → Cmos
encode c f = record c {
  fields = record {
    second = to_mode c.regb f.second;
    minute = to_mode c.regb f.minute;
    hour = write_hour (hours24 c.regb) (binary c.regb) f.hour;
    day = to_mode c.regb f.day;
    month = to_mode c.regb f.month;
    year = to_mode c.regb (f.year % 100);
  };
  century = if has_century c then to_mode c.regb (f.year / 100) else c.century;
}

-- The date, from the day in the year and the second in the day.
abbrev pub with_month : (year rem : ℕ) → Search → Option Fields
with_month year rem (found month days) = some (record {
  second = rem % 3600 % 60;
  minute = rem % 3600 / 60;
  hour = rem / 3600;
  day = days + 1;
  month = month;
  year = year;
})
with_month year rem refused = none
with_month year rem stuck = none

abbrev pub with_year : (rem : ℕ) → Search → Option Fields
with_year rem (found year days) = with_month year rem (find_month 13 1 year days)
with_year rem refused = none
with_year rem stuck = none

-- The date of a number of seconds. The years 1970 to 9999 take at most 8030 rounds.
unfoldable pub to_date : ℕ → Option Fields
to_date seconds = with_year (seconds % 86400) (find_year 8030 1970 (seconds / 86400))

abbrev pub store : Cmos → Option Fields → Option Cmos
store c none = none
store c (some f) = if not (has_century c) && ltb 2069 f.year then none else some (encode c f)

-- `rtc_set_timestamp`; `none` is the result -1.
unfoldable pub set_timestamp : Cmos → ℤ → Option Cmos
set_timestamp c (pos timestamp) = store c (to_date (timestamp / 100))
set_timestamp c (negsuc n) = none
