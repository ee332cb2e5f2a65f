-- ===== src/Rtc/Tests.antt =====
-- A chip with a century that counts in decimal, to 24 or to 12.
use panuti.Base.{
  ◌≡◌, refl, ◌-◌, ◌*◌, ◌/◌, inl, ℕ, ◌<◌, true, false, [], ◌∷◌, some, none, arith, test_bit,
}
use panuti.Base.Int.{pos, negsuc}
use panuti.Rtc.{
  Fields, Cmos, has_century, cur_timestamp, set_timestamp, to_date, find_year, find_month, encode,
  to_bcd, from_bcd, write_hour, days_in_month, is_leap_year, sum_years,
}
use panuti.Rtc.RoundTrip.{set_timestamp-cur_timestamp, noon_lost}

abbrev epoch : Fields
epoch = record { second = 0; minute = 0; hour = 0; day = 1; month = 1; year = 0x70 }

abbrev chip24 : Cmos
chip24 = record { fields = epoch; century = 0x20; regb = 2 }

abbrev chip12 : Cmos
chip12 = record { fields = epoch; century = 0x20; regb = 0 }

-- 1972-02-29 13:00:05
abbrev leap_day : ℕ
leap_day = 6821640500

abbrev leap_fields : ℕ → Fields
leap_fields hour = record {
  second = 5;
  minute = 0;
  hour = hour;
  day = 0x29;
  month = 2;
  year = 0x72;
}

sets_leap_day :
    set_timestamp chip24 (pos leap_day)
    ≡ some (record { fields = leap_fields 0x13; century = 0x19; regb = 2 })
unfolding set_timestamp to_date find_year find_month encode to_bcd from_bcd write_hour days_in_month
    is_leap_year test_bit
sets_leap_day = refl

sets_noon :
    set_timestamp chip12 (pos (leap_day - 360000))
    ≡ some (record { fields = leap_fields 0x92; century = 0x19; regb = 0 })
unfolding set_timestamp to_date find_year find_month encode to_bcd from_bcd write_hour days_in_month
    is_leap_year test_bit
sets_noon = refl

refuses_negative : set_timestamp chip24 (negsuc 0) ≡ none
unfolding set_timestamp
refuses_negative = refl

reads24 : test_bit 2 1 ≡ true
unfolding test_bit
reads24 = refl

reads12 : test_bit 0 1 ≡ false
unfolding test_bit
reads12 = refl

set_timestamp-cur_timestamp_example :
    cur_timestamp 2 0x19 (leap_fields 0x13) (leap_fields 0x13 ∷ []) ≡ some (leap_day / 100 * 100)
set_timestamp-cur_timestamp_example =
    set_timestamp-cur_timestamp chip24 leap_day
      (record { fields = leap_fields 0x13; century = 0x19; regb = 2 }) sets_leap_day (inl reads24)

has_century24 : has_century chip24 ≡ true
unfolding test_bit from_bcd
has_century24 = refl

three_years : 789 < sum_years 8030 1970 0
unfolding sum_years is_leap_year
three_years = omega arith

noon_lost_example :
    cur_timestamp 0 0x19 (leap_fields 0x92) (leap_fields 0x92 ∷ [])
    ≡ some ((leap_day - 360000) / 100 * 100 - 4320000)
noon_lost_example =
    noon_lost chip12 (leap_day - 360000)
      (record { fields = leap_fields 0x92; century = 0x19; regb = 0 }) sets_noon reads12
      (omega arith)
