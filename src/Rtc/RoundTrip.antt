-- ===== src/Rtc/RoundTrip.antt =====
-- Setting the clock and reading it.
use panuti.Base.{
  ℕ, ◌-◌, ◌*◌, ◌/◌, ◌%◌, ◌≤◌, ◌<◌, ◌≡◌, ◌⊎◌, inl, inr, refl, sym, ap, subst, ◌∙◌, true, false, not,
  ◌&&◌, [], ◌∷◌, Option, none, some, arith, ◌==◌, ltb, Bool-cases,
}
use panuti.Base.Int.{pos}
use panuti.Rtc.{
  Fields, Cmos, Search, found, refused, stuck, hours24, binary, has_century, decode, encode, settle,
  read_rtc, cur_timestamp, timestamp, sum_years, sum_months, days_in_month, with_month, with_year,
  to_date, store, set_timestamp, same_fields,
}
use panuti.Rtc.Dates.{
  whole_days, YearFound, find_year-YearFound, MonthFound, find_month-MonthFound, whole_year,
}
use panuti.Rtc.Modes.{
  IsStorable, from_mode-to_mode, read_hour-write_hour, noon_reads_midnight, year_back,
}

-- The date of a number of seconds from the start of 1970.
pub record IsDateOf (seconds : ℕ) (f : Fields) : Type 0 where
  pub second_in : f.second < 60
  pub minute_in : f.minute < 60
  pub hour_is : f.hour ≡ seconds % 86400 / 3600
  pub day_in : f.day ≤ 31
  pub month_in : f.month ≤ 12
  pub year_in : (1970 ≤ f.year) × (f.year ≤ 9999)
  pub total : timestamp f ≡ seconds * 100

abbrev pub Dated : (seconds : ℕ) → Option Fields → Type 0
Dated seconds none = sum_years 8030 1970 0 ≤ seconds / 86400
Dated seconds (some f) = IsDateOf seconds f

month_length : (month year : ℕ) → days_in_month month year ≤ 31
unfolding days_in_month
month_length month year = ground arith

with_month-Dated :
    (seconds year days : ℕ) (s : Search)
    → YearFound 1970 (seconds / 86400) (found year days)
    → MonthFound 1 year days s
    → Dated seconds (with_month year (seconds % 86400) s)
unfolding timestamp
with_month-Dated seconds year days (found month d) y m = record {
  second_in = omega arith;
  minute_in = omega arith;
  hour_is = refl;
  day_in = omega (arith, m.3, month_length month year);
  month_in = m.2;
  year_in = (omega (arith, y.1), y.2);
  total = omega (
    arith,
    whole_days (year - 1970) (month - 1) year (seconds / 86400) days d
        (ap (λ n. sum_years n 1970 days) {x = year - 1970} {y = y.0} (omega (arith, y.1)) ∙ y.4)
        (ap (λ n. sum_months n 1 year d) {x = month - 1} {y = m.0} (omega (arith, m.1)) ∙ m.4),
  );
}
with_month-Dated seconds year days refused y m = absurd m
with_month-Dated seconds year days stuck y m = absurd m

with_year-Dated :
    (seconds : ℕ) (s : Search)
    → YearFound 1970 (seconds / 86400) s
    → Dated seconds (with_year (seconds % 86400) s)
with_year-Dated seconds (found year days) y = with_month-Dated seconds year days _ y (
    find_month-MonthFound 13 1 year days (omega arith) (omega arith) (omega arith)
      (omega (arith, whole_year year, y.3)))
with_year-Dated seconds refused y = y
with_year-Dated seconds stuck y = absurd y

to_date-Dated : (seconds : ℕ) → Dated seconds (to_date seconds)
unfolding to_date
to_date-Dated seconds =
    with_year-Dated seconds _
      (find_year-YearFound 8030 1970 (seconds / 86400) (omega arith) (omega arith))

decode-encode :
    (c : Cmos) (f : Fields)
    → IsStorable c f
    → (hours24 c.regb ≡ true) ⊎ ((f.hour == 12) ≡ false)
    → decode (encode c f).regb (encode c f).century (encode c f).fields ≡ f
unfolding decode encode
decode-encode c f s h =
    rw
      (
        from_mode-to_mode c.regb f.second (omega (arith, s.second_in)),
        from_mode-to_mode c.regb f.minute (omega (arith, s.minute_in)),
        from_mode-to_mode c.regb f.day (omega (arith, s.day_in)),
        from_mode-to_mode c.regb f.month (omega (arith, s.month_in)),
        read_hour-write_hour (hours24 c.regb) (binary c.regb) f.hour s.hour_in h,
        year_back c f.year s.year_in.0 s.year_in.1 s.century_in,
      )
      refl

same_fields_refl : (f : Fields) → same_fields f f ≡ true
same_fields_refl f = ground arith

storable :
    (c : Cmos) (seconds : ℕ) (f : Fields)
    → IsDateOf seconds f
    → (has_century c ≡ true) ⊎ (f.year ≤ 2069)
    → IsStorable c f
storable c seconds f d h = record {
  second_in = d.second_in;
  minute_in = d.minute_in;
  hour_in = omega (arith, d.hour_is);
  day_in = d.day_in;
  month_in = d.month_in;
  year_in = d.year_in;
  century_in = h;
}

settle-twice : (f : Fields) → settle f (f ∷ []) ≡ some f
unfolding settle
settle-twice f = rw (same_fields_refl f) refl

-- What a read gives of registers that two readings agree on.
cur_timestamp_settled :
    (c : Cmos)
    → cur_timestamp c.regb c.century c.fields (c.fields ∷ [])
      ≡ some (timestamp (decode c.regb c.century c.fields))
unfolding cur_timestamp read_rtc
cur_timestamp_settled c = rw (settle-twice c.fields, cur_timestamp, read_rtc) refl

Reads : Cmos → ℕ → Type 0
Reads c t = cur_timestamp c.regb c.century c.fields (c.fields ∷ []) ≡ some t

stored-Reads :
    (c : Cmos) (seconds : ℕ) (f : Fields)
    → IsDateOf seconds f
    → (has_century c ≡ true) ⊎ (f.year ≤ 2069)
    → (hours24 c.regb ≡ true) ⊎ ((seconds % 86400 / 3600 == 12) ≡ false)
    → Reads (encode c f) (seconds * 100)
unfolding Reads
stored-Reads c seconds f d h noon =
    let hour_kept : (hours24 c.regb ≡ true) ⊎ ((f.hour == 12) ≡ false) =
      subst (λ u. (hours24 c.regb ≡ true) ⊎ ((u == 12) ≡ false)) (sym d.hour_is) noon in
    cur_timestamp_settled (encode c f)
    ∙ ap (λ g. some (timestamp g)) (decode-encode c f (storable c seconds f d h) hour_kept)
    ∙ ap some d.total

store-Reads :
    (c : Cmos) (seconds : ℕ) (o : Option Fields) (after : Cmos)
    → Dated seconds o
    → (hours24 c.regb ≡ true) ⊎ ((seconds % 86400 / 3600 == 12) ≡ false)
    → store c o ≡ some after
    → Reads after (seconds * 100)
store-Reads c seconds none after d noon h = cc
store-Reads c seconds (some f) after d noon h =
    elim (Bool-cases (not (has_century c) && ltb 2069 f.year)) [
      | inl late ↦ let e : none ≡ some after = rw late at h in cc
      | inr holds ↦
          let e : some (encode c f) ≡ some after = rw holds at h in
          let same : encode c f ≡ after = cc in
          subst (λ a. Reads a (seconds * 100)) same (stored-Reads c seconds f d (ground arith) noon)
    ]

-- A date is refused if it is past 9999, or if the chip has no century and it is past 2069.
store-accepts :
    (c : Cmos) (seconds : ℕ) (o : Option Fields)
    → Dated seconds o
    → has_century c ≡ true
    → seconds / 86400 < sum_years 8030 1970 0
    → (after : Cmos) × (store c o ≡ some after)
store-accepts c seconds none d h early = absurd (omega arith)
store-accepts c seconds (some f) d h early = (encode c f, rw h refl)

-- A chip that keeps a century is set to any time that is not negative and before the year 10000.
pub set_timestamp_accepts :
    (c : Cmos) (time : ℕ)
    → has_century c ≡ true
    → time / 100 / 86400 < sum_years 8030 1970 0
    → (after : Cmos) × (set_timestamp c (pos time) ≡ some after)
unfolding set_timestamp
set_timestamp_accepts c time h early =
    store-accepts c (time / 100) (to_date (time / 100)) (to_date-Dated (time / 100)) h early

-- When `rtc_set_timestamp` sets the clock to a time, a read that follows at once gives that time back, in whole
-- seconds, in each mode of the chip; but for the hour from noon to one, if the chip counts to 12.
pub set_timestamp-cur_timestamp :
    (c : Cmos) (time : ℕ) (after : Cmos)
    → set_timestamp c (pos time) ≡ some after
    → (hours24 c.regb ≡ true) ⊎ ((time / 100 % 86400 / 3600 == 12) ≡ false)
    → cur_timestamp after.regb after.century after.fields (after.fields ∷ [])
      ≡ some (time / 100 * 100)
unfolding set_timestamp Reads
set_timestamp-cur_timestamp c time after h noon =
    store-Reads c (time / 100) (to_date (time / 100)) after (to_date-Dated (time / 100)) noon h

decode-encode_noon :
    (c : Cmos) (f : Fields)
    → IsStorable c f
    → hours24 c.regb ≡ false
    → f.hour ≡ 12
    → decode (encode c f).regb (encode c f).century (encode c f).fields ≡ record f { hour = 0 }
unfolding decode encode
decode-encode_noon c f s h noon =
    rw
      (
        from_mode-to_mode c.regb f.second (omega (arith, s.second_in)),
        from_mode-to_mode c.regb f.minute (omega (arith, s.minute_in)),
        from_mode-to_mode c.regb f.day (omega (arith, s.day_in)),
        from_mode-to_mode c.regb f.month (omega (arith, s.month_in)),
        year_back c f.year s.year_in.0 s.year_in.1 s.century_in,
        h,
        noon,
        noon_reads_midnight (binary c.regb),
      )
      refl

timestamp_midnight :
    (f : Fields) → f.hour ≡ 12 → timestamp (record f { hour = 0 }) ≡ timestamp f - 4320000
unfolding timestamp
timestamp_midnight f h = omega arith

store-noon :
    (c : Cmos) (seconds : ℕ) (o : Option Fields) (after : Cmos)
    → Dated seconds o
    → hours24 c.regb ≡ false
    → seconds % 86400 / 3600 ≡ 12
    → store c o ≡ some after
    → Reads after (seconds * 100 - 4320000)
unfolding Reads
store-noon c seconds none after d to12 noon h = cc
store-noon c seconds (some f) after d to12 noon h =
    elim (Bool-cases (not (has_century c) && ltb 2069 f.year)) [
      | inl late ↦ let e : none ≡ some after = rw late at h in cc
      | inr holds ↦
          let e : some (encode c f) ≡ some after = rw holds at h in
          let same : encode c f ≡ after = cc in
          let at_noon : f.hour ≡ 12 = d.hour_is ∙ noon in
          subst (λ a. Reads a (seconds * 100 - 4320000)) same
            (cur_timestamp_settled (encode c f)
              ∙ ap (λ g. some (timestamp g))
                  (decode-encode_noon c f (storable c seconds f d (ground arith)) to12 at_noon)
              ∙ ap some (timestamp_midnight f at_noon ∙ ap (λ t. t - 4320000) d.total))
    ]

-- A chip that counts to 12 and is set to a time from noon to one o'clock reads twelve hours too early.
pub noon_lost :
    (c : Cmos) (time : ℕ) (after : Cmos)
    → set_timestamp c (pos time) ≡ some after
    → hours24 c.regb ≡ false
    → time / 100 % 86400 / 3600 ≡ 12
    → cur_timestamp after.regb after.century after.fields (after.fields ∷ [])
      ≡ some (time / 100 * 100 - 4320000)
unfolding set_timestamp Reads
noon_lost c time after h to12 noon =
    store-noon c (time / 100) (to_date (time / 100)) after (to_date-Dated (time / 100)) to12 noon h
