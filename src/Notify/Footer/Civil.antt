-- ===== src/Notify/Footer/Civil.antt =====
-- `civil` finds the day of the calendar.

use rfw.Base.{
  Bool-cases, arith, inl, inr, list_eq, ltb, ltb→le, ltb→lt, nat_beq_iff, nat_eq, refl, subst, suc,
  sym, zero, ℕ, ◌%◌, ◌*◌, ◌+◌, ◌-◌, ◌/◌, ◌<◌, ◌==◌, ◌∙◌, ◌≡◌, ◌≢◌, ◌≤◌,
}
use rfw.Notify.Footer.{CivilDate, civil, from_march, utc_time, year_of_era}
use rfw.Notify.Footer.Calendar.{
  IsValid, day_number, days_before_month, days_before_year, days_before_year_lem, days_in_month,
  leap_day, leap_day_lem,
}

module _ (doe : ℕ) (h : doe < 146_097) where
  year_of_era_le : year_of_era doe ≤ 399
  year_of_era_le = omega arith

  year_of_era_start : 365 * year_of_era doe + year_of_era doe / 4 ≤ doe + year_of_era doe / 100
  year_of_era_start = omega arith

  year_of_era_end :
      doe + (year_of_era doe + 1) / 100
      < 365 * (year_of_era doe + 1) + (year_of_era doe + 1) / 4 + (year_of_era doe + 1) / 400
  year_of_era_end = omega arith

-- A month from March on: its start, and its length.
abbrev MonthFrom : ℕ → ℕ → Type 0
MonthFrom y mp =
    (days_before_month y (mp + 3) ≡ 59 + leap_day y + (153 * mp + 2) / 5)
    × (days_in_month y (mp + 3) + (153 * mp + 2) / 5 ≡ (153 * (mp + 1) + 2) / 5)

month-MonthFrom : (y mp : ℕ) → mp < 10 → MonthFrom y mp
unfolding days_before_month days_in_month
month-MonthFrom y zero h = (omega arith, refl)
month-MonthFrom y (suc zero) h = (omega arith, refl)
month-MonthFrom y (suc (suc zero)) h = (omega arith, refl)
month-MonthFrom y (suc (suc (suc zero))) h = (omega arith, refl)
month-MonthFrom y (suc (suc (suc (suc zero)))) h = (omega arith, refl)
month-MonthFrom y (suc (suc (suc (suc (suc zero))))) h = (omega arith, refl)
month-MonthFrom y (suc (suc (suc (suc (suc (suc zero)))))) h = (omega arith, refl)
month-MonthFrom y (suc (suc (suc (suc (suc (suc (suc zero))))))) h = (omega arith, refl)
month-MonthFrom y (suc (suc (suc (suc (suc (suc (suc (suc zero)))))))) h = (omega arith, refl)
month-MonthFrom y (suc (suc (suc (suc (suc (suc (suc (suc (suc zero))))))))) h = (omega arith, refl)
month-MonthFrom y (suc (suc (suc (suc (suc (suc (suc (suc (suc (suc mp)))))))))) h =
    absurd (omega arith)

january : (y : ℕ) → (days_before_month y 1 ≡ 0) × (days_in_month y 1 ≡ 31)
unfolding days_before_month days_in_month
january y = (refl, refl)

february : (y : ℕ) → (days_before_month y 2 ≡ 31) × (days_in_month y 2 ≡ 28 + leap_day y)
unfolding days_before_month days_in_month
february y = (refl, refl)

-- A valid date with a day number.
abbrev pub IsDay : CivilDate → ℕ → Type 0
IsDay t n = IsValid t × (day_number t ≡ n)

leap_day-le : (y : ℕ) → leap_day y ≤ 1
unfolding leap_day
leap_day-le y = ground arith

next_year : (y : ℕ) → days_before_year (y + 1) ≡ days_before_year y + 365 + leap_day y
unfolding days_before_year
next_year y = let e : y + 1 ≡ suc y = omega arith in rw e (omega arith)

module _ (y doy : ℕ) (h : doy < 365 + leap_day (y + 1)) where
  abbrev mp : ℕ
  mp = (5 * doy + 2) / 153

  abbrev d : ℕ
  d = doy - (153 * mp + 2) / 5 + 1

  from_march-spring :
      mp < 10 → IsDay (from_march y doy) (days_before_year y + 59 + leap_day y + doy)
  from_march-spring low =
      let (before, long) = month-MonthFrom y mp low in
      let e : from_march y doy ≡ record { year = y; month = mp + 3; day = d } = ground arith in
      subst (λ t. IsDay t (days_before_year y + 59 + leap_day y + doy)) (sym e)
        ((omega arith, omega arith, omega arith, omega arith), omega arith)

  from_march-january :
      mp ≡ 10 → IsDay (from_march y doy) (days_before_year y + 59 + leap_day y + doy)
  from_march-january same =
      let (before, long) = january (y + 1) in
      let e : from_march y doy ≡ record { year = y + 1; month = 1; day = d } = ground arith in
      subst (λ t. IsDay t (days_before_year y + 59 + leap_day y + doy)) (sym e)
        ((omega arith, omega arith, omega arith, omega arith), omega (arith, next_year y))

  from_march-february :
      mp ≡ 11 → IsDay (from_march y doy) (days_before_year y + 59 + leap_day y + doy)
  from_march-february same =
      let (before, long) = february (y + 1) in
      let e : from_march y doy ≡ record { year = y + 1; month = 2; day = d } = ground arith in
      subst (λ t. IsDay t (days_before_year y + 59 + leap_day y + doy)) (sym e)
        ((omega arith, omega arith, omega arith, omega arith), omega (arith, next_year y))

  from_march-IsDay : IsDay (from_march y doy) (days_before_year y + 59 + leap_day y + doy)
  from_march-IsDay = elim (Bool-cases (ltb mp 10)) [
    | inl t ↦ from_march-spring (ltb→lt mp 10 t)
    | inr late ↦ elim (Bool-cases (mp == 10)) [
      | inl t ↦ from_march-january ((nat_beq_iff mp 10).0 t)
      | inr f ↦
          let past = ltb→le mp 10 late in
          let other : mp ≢ 10 = λ e. cc (f, (nat_beq_iff mp 10).1 e) in
          from_march-february (omega (arith, leap_day-le (y + 1)))
    ]
  ]

abbrev pub unix_epoch : ℕ
unix_epoch = 719_528

module _ (era yoe doe : ℕ) (in_era : yoe ≤ 399) (from_start : 365 * yoe + yoe / 4 ≤ doe + yoe / 100)
    (to_end : doe + (yoe + 1) / 100 < 365 * (yoe + 1) + (yoe + 1) / 4 + (yoe + 1) / 400) where
  abbrev doy : ℕ
  doy = doe - (365 * yoe + yoe / 4 - yoe / 100)

  doy-lt : doy < 365 + leap_day (yoe + era * 400 + 1)
  doy-lt = omega (arith, in_era, from_start, to_end, leap_day_lem (yoe + era * 400 + 1))

  day_number-doy :
      days_before_year (yoe + era * 400) + 59 + leap_day (yoe + era * 400) + doy
      ≡ era * 146_097 + doe + 60
  day_number-doy =
      let y = yoe + era * 400 in
      omega (arith, in_era, from_start, days_before_year_lem y, leap_day_lem y)

-- The date is valid, and its day number is the one of 1970-01-01 and the days that have passed.
pub civil-IsDay : (days : ℕ) → IsDay (civil days) (days + unix_epoch)
unfolding civil
civil-IsDay days =
    let z = days + 719_468 in
    let era = z / 146_097 in
    let doe = z % 146_097 in
    let yoe = year_of_era doe in
    let y = yoe + era * 400 in
    let small : doe < 146_097 = omega arith in
    let in_era = year_of_era_le doe small in
    let from_start = year_of_era_start doe small in
    let to_end = year_of_era_end doe small in
    let split : era * 146_097 + doe + 60 ≡ days + unix_epoch = omega arith in
    subst (IsDay (from_march y (doy era yoe doe in_era from_start to_end)))
      (day_number-doy era yoe doe in_era from_start to_end ∙ split)
      (from_march-IsDay y (doy era yoe doe in_era from_start to_end)
        (doy-lt era yoe doe in_era from_start to_end))

abbrev pub epoch : CivilDate
epoch = record { year = 1970; month = 1; day = 1 }

day_number-epoch : day_number epoch ≡ unix_epoch
unfolding days_before_year days_before_month leap_day
day_number-epoch = refl

-- The time of a message is a valid date of the Gregorian calendar with an hour, a minute and a second of
-- a day, and from the start of 1970-01-01 to it as many seconds have passed as were given.
pub utc_time_lem :
    (unix_secs : ℕ)
    → let t = utc_time unix_secs in
      IsValid t.date
      × (t.hour < 24)
      × (t.minute < 60)
      × (t.second < 60)
      × (day_number t.date * 86_400 + t.hour * 3600 + t.minute * 60 + t.second
          ≡ day_number epoch * 86_400 + unix_secs)
unfolding utc_time
utc_time_lem unix_secs =
    let (valid, number) = civil-IsDay (unix_secs / 86_400) in
    (valid, omega arith, omega arith, omega arith, omega (arith, number, day_number-epoch))
