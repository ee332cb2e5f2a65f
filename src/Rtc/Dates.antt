-- ===== src/Rtc/Dates.antt =====
-- Days into dates and back: the loops of both directions.
use panuti.Base.{
  ℕ, zero, suc, ◌+◌, ◌-◌, ◌≤◌, ◌<◌, ◌≡◌, refl, ap, ◌∙◌, arith, leb, Bool-cases, inl, inr,
}
use panuti.Rtc.{
  Search, found, refused, stuck, days_in_month, year_length, sum_years, sum_months, find_year,
  find_month,
}

sum_years-add : (left y a b : ℕ) → sum_years left y (a + b) ≡ sum_years left y a + b
unfolding sum_years
sum_years-add zero y a b = refl
sum_years-add (suc left) y a b =
    ap (sum_years left (y + 1)) {y = a + year_length y + b} (omega arith)
    ∙ sum_years-add left (y + 1) (a + year_length y) b

sum_months-add : (left m y a b : ℕ) → sum_months left m y (a + b) ≡ sum_months left m y a + b
unfolding sum_months
sum_months-add zero m y a b = refl
sum_months-add (suc left) m y a b =
    ap (sum_months left (m + 1) y) {y = a + days_in_month m y + b} (omega arith)
    ∙ sum_months-add left (m + 1) y (a + days_in_month m y) b

sum_years-base : (left y a : ℕ) → sum_years left y a ≡ sum_years left y 0 + a
sum_years-base left y a = ap (sum_years left y) (omega arith) ∙ sum_years-add left y 0 a

sum_months-base : (left m y a : ℕ) → sum_months left m y a ≡ sum_months left m y 0 + a
sum_months-base left m y a = ap (sum_months left m y) (omega arith) ∙ sum_months-add left m y 0 a

-- The days of the years before, and of the months before, and those that are left.
pub whole_days :
    (years months year total days d : ℕ)
    → sum_years years 1970 days ≡ total
    → sum_months months 1 year d ≡ days
    → sum_months months 1 year (sum_years years 1970 0) + d ≡ total
whole_days years months year total days d hy hm = omega (
  arith,
  sum_years-base years 1970 days,
  sum_months-base months 1 year d,
  sum_months-base months 1 year (sum_years years 1970 0),
)

-- What a search that starts at `unit` returns: the days before the unit that it finds and the
-- days that are left are all the days.
abbrev pub YearFound : (year days : ℕ) → Search → Type 0
YearFound year days (found y d) =
    (n : ℕ) × (y ≡ year + n) × (y ≤ 9999) × (d < year_length y) × (sum_years n year d ≡ days)
YearFound year days refused = sum_years (10000 - year) year 0 ≤ days
YearFound year days stuck = ⊥

sum_years-suc :
    (year : ℕ)
    → year ≤ 9999
    → sum_years (10000 - year) year 0
      ≡ sum_years (10000 - (year + 1)) (year + 1) 0 + year_length year
unfolding sum_years
sum_years-suc year top =
    ap (λ n. sum_years n year 0) {x = 10000 - year} {y = suc (10000 - (year + 1))} (omega arith)
    ∙ sum_years-add (10000 - (year + 1)) (year + 1) 0 (year_length year)

YearFound-later :
    (year days : ℕ) (s : Search)
    → year ≤ 9999
    → year_length year ≤ days
    → YearFound (year + 1) (days - year_length year) s
    → YearFound year days s
unfolding sum_years
YearFound-later year days (found y d) under le w =
    let (n, at, top, less, total) = w in
    (suc n, omega arith, top, less, sum_years-add n (year + 1) d (year_length year) ∙ omega arith)
YearFound-later year days refused under le w = omega (arith, sum_years-suc year under)
YearFound-later year days stuck under le w = absurd w

all_years : (year : ℕ) → year ≡ 10000 → sum_years (10000 - year) year 0 ≡ 0
unfolding sum_years
all_years year h = rw h refl

pub find_year-YearFound :
    (fuel year days : ℕ)
    → year ≤ 9999
    → 9999 < year + fuel
    → YearFound year days (find_year fuel year days)
unfolding find_year sum_years
find_year-YearFound zero year days top enough = absurd (omega arith)
find_year-YearFound (suc fuel) year days top enough =
    elim (Bool-cases (leb (year_length year) days)) [
      | inl more ↦ elim (Bool-cases (leb 9999 year)) [
        | inl last ↦ rw (more, last) (ground (arith, sum_years-suc year top, all_years (year + 1)))
        | inr before ↦
            rw (more, before)
              (YearFound-later year days _ top (ground arith) (
                find_year-YearFound fuel (year + 1) (days - year_length year) (ground arith)
                  (omega arith)))
      ]
      | inr here ↦ rw here ((0, omega arith, top, ground arith, refl))
    ]

abbrev pub MonthFound : (month year days : ℕ) → Search → Type 0
MonthFound month year days (found m d) =
    (n : ℕ) × (m ≡ month + n)
    × (m ≤ 12)
    × (d < days_in_month m year)
    × (sum_months n month year d ≡ days)
MonthFound month year days refused = ⊥
MonthFound month year days stuck = ⊥

MonthFound-later :
    (month year days : ℕ) (s : Search)
    → days_in_month month year ≤ days
    → MonthFound (month + 1) year (days - days_in_month month year) s
    → MonthFound month year days s
unfolding sum_months
MonthFound-later month year days (found m d) le w =
    let (n, at, top, less, total) = w in
    (
      suc n,
      omega arith,
      top,
      less,
      sum_months-add n (month + 1) year d (days_in_month month year) ∙ omega arith,
    )
MonthFound-later month year days refused le w = absurd w
MonthFound-later month year days stuck le w = absurd w

-- The days from the start of a month on.
abbrev pub rest_of_year : (month year : ℕ) → ℕ
rest_of_year month year = sum_months (13 - month) month year 0

rest_of_year-suc :
    (month year : ℕ)
    → 1 ≤ month
    → month ≤ 12
    → rest_of_year month year ≡ days_in_month month year + rest_of_year (month + 1) year
unfolding sum_months
rest_of_year-suc month year lo hi =
    ap (λ n. sum_months n month year 0) {x = 13 - month} {y = suc (13 - (month + 1))} (omega arith)
    ∙ sum_months-add (13 - (month + 1)) (month + 1) year 0 (days_in_month month year)
    ∙ omega arith

year_over : (month year : ℕ) → month ≡ 13 → rest_of_year month year ≡ 0
unfolding sum_months
year_over month year h = rw h refl

pub whole_year : (year : ℕ) → rest_of_year 1 year ≡ year_length year
unfolding sum_months days_in_month
whole_year year = ground arith

pub find_month-MonthFound :
    (fuel month year days : ℕ)
    → 1 ≤ month
    → 13 < month + fuel
    → month ≤ 13
    → days < rest_of_year month year
    → MonthFound month year days (find_month fuel month year days)
unfolding find_month sum_months
find_month-MonthFound zero month year days lo enough top less = absurd (omega arith)
find_month-MonthFound (suc fuel) month year days lo enough top less =
    let within : month ≤ 12 = ground (arith, year_over month year) in
    elim (Bool-cases (leb (days_in_month month year) days)) [
      | inl more ↦ rw more (
          MonthFound-later month year days _ (ground arith) (
            find_month-MonthFound fuel (month + 1) year (days - days_in_month month year)
              (omega arith) (omega arith) (omega arith)
              (ground (arith, rest_of_year-suc month year lo within))))
      | inr here ↦ rw here ((0, omega arith, within, ground arith, refl))
    ]
