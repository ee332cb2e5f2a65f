-- ===== src/Rtc/Modes.antt =====
-- What the chip holds in its mode reads back as what was written.
use panuti.Base.{
  ℕ, ◌/◌, ◌%◌, ◌≤◌, ◌<◌, ◌≡◌, ◌⊎◌, inl, inr, refl, Bool, true, false, arith, ◌==◌, if◌then◌else◌,
  Bool-cases,
}
use panuti.Rtc.{
  Fields, Cmos, binary, to_bcd, from_bcd, from_mode, to_mode, has_century, read_hour, read_year,
  write_hour,
}

from_bcd-to_bcd : (v : ℕ) → v < 100 → from_bcd (to_bcd v) ≡ v
unfolding from_bcd to_bcd
from_bcd-to_bcd v h = omega arith

pub from_mode-to_mode : (regb v : ℕ) → v < 100 → from_mode regb (to_mode regb v) ≡ v
from_mode-to_mode regb v h = elim (Bool-cases (binary regb)) [
  | inl b ↦ rw b refl
  | inr b ↦ rw b (from_bcd-to_bcd v h)
]

-- Noon is the one hour that does not come back, on a chip that counts to 12.
pub read_hour-write_hour :
    (to24 in_binary : Bool) (hour : ℕ)
    → hour < 24
    → (to24 ≡ true) ⊎ ((hour == 12) ≡ false)
    → read_hour to24 in_binary (write_hour to24 in_binary hour) ≡ hour
unfolding read_hour write_hour to_bcd from_bcd
read_hour-write_hour true true hour h c = omega arith
read_hour-write_hour true false hour h c = ground arith
read_hour-write_hour false true hour h c = ground arith
read_hour-write_hour false false hour h c = ground arith

pub noon_reads_midnight :
    (in_binary : Bool) → read_hour false in_binary (write_hour false in_binary 12) ≡ 0
unfolding read_hour write_hour to_bcd from_bcd
noon_reads_midnight true = refl
noon_reads_midnight false = refl

-- A date that the registers can hold.
pub record IsStorable (c : Cmos) (f : Fields) : Type 0 where
  pub second_in : f.second < 60
  pub minute_in : f.minute < 60
  pub hour_in : f.hour < 24
  pub day_in : f.day ≤ 31
  pub month_in : f.month ≤ 12
  pub year_in : (1970 ≤ f.year) × (f.year ≤ 9999)
  pub century_in : (has_century c ≡ true) ⊎ (f.year ≤ 2069)

pub year_back :
    (c : Cmos) (year : ℕ)
    → 1970 ≤ year
    → year ≤ 9999
    → (has_century c ≡ true) ⊎ (year ≤ 2069)
    → read_year
        (from_mode c.regb (if has_century c then to_mode c.regb (year / 100) else c.century))
        (from_mode c.regb (to_mode c.regb (year % 100)))
      ≡ year
year_back c year lo hi h = elim (Bool-cases (has_century c)) [
  | inl b ↦
      rw
        (
          b,
          from_mode-to_mode c.regb (year / 100) (omega arith),
          from_mode-to_mode c.regb (year % 100) (omega arith),
        )
        (ground arith)
  | inr b ↦ rw (b, from_mode-to_mode c.regb (year % 100) (omega arith)) (ground arith)
]
