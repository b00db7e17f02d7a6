-- ===== src/Notify/Footer/Calendar.antt =====
-- The Gregorian calendar, by the lengths of its years and months.

use rfw.Base.{
  Bool, arith, if◌then◌else◌, list_eq, nat_eq, not, suc, zero, ℕ, ◌%◌, ◌&&◌, ◌*◌, ◌+◌, ◌-◌, ◌/◌,
  ◌==◌, ◌||◌, ◌≡◌, ◌≤◌,
}
use rfw.Notify.Footer.{CivilDate}

abbrev pub is_leap : ℕ → Bool
is_leap y = y % 4 == 0 && (not (y % 100 == 0) || y % 400 == 0)

unfoldable pub leap_day : ℕ → ℕ
leap_day y = if is_leap y then 1 else 0

unfoldable pub days_in_month : ℕ → ℕ → ℕ
days_in_month y m =
    if m == 2 then 28 + leap_day y else if m == 4 || m == 6 || m == 9 || m == 11 then 30 else 31

abbrev pub IsValid : CivilDate → Type 0
IsValid t = (1 ≤ t.month) × (t.month ≤ 12) × (1 ≤ t.day) × (t.day ≤ days_in_month t.year t.month)

-- The days of the year before a month.
unfoldable pub days_before_month : ℕ → ℕ → ℕ
days_before_month y zero = 0
days_before_month y (suc zero) = 0
days_before_month y (suc (suc m)) = days_before_month y (suc m) + days_in_month y (suc m)

-- The days from the year 0 to a year.
unfoldable pub days_before_year : ℕ → ℕ
days_before_year zero = 0
days_before_year (suc y) = days_before_year y + (365 + leap_day y)

-- The days from the first of January of the year 0.
abbrev pub day_number : CivilDate → ℕ
day_number t = days_before_year t.year + days_before_month t.year t.month + (t.day - 1)

pub leap_day_lem :
    (y : ℕ)
    → leap_day y + ((y + 3) / 4 + (y + 399) / 400 + (y + 100) / 100)
      ≡ (y + 4) / 4 + (y + 400) / 400 + (y + 99) / 100
unfolding leap_day
leap_day_lem y = ground arith

pub days_before_year_lem :
    (y : ℕ) → days_before_year y + (y + 99) / 100 ≡ 365 * y + (y + 3) / 4 + (y + 399) / 400
unfolding days_before_year
days_before_year_lem zero = omega arith
days_before_year_lem (suc y) = omega (arith, days_before_year_lem y, leap_day_lem y)
