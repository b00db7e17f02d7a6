-- ===== src/Notify/Footer.antt =====
-- `format_utc` of `src/notify.rs`: the time in the footer of a message.
pub mod Calendar
pub mod Civil
use rfw.Base.{if◌then◌else◌, leb, ltb, ℕ, ◌%◌, ◌*◌, ◌++◌, ◌+◌, ◌-◌, ◌/◌, ◌∷◌}
use rfw.Text.{Text, codes}
use rfw.Text.Decimal.{show}

pub record CivilDate : Type 0 where
  pub year : ℕ
  pub month : ℕ
  pub day : ℕ

-- `yoe` of `doe`: the year of the era, from a day of the era.
abbrev pub year_of_era : ℕ → ℕ
year_of_era doe = (doe - doe / 1460 + doe / 36_524 - doe / 146_096) / 365

-- The date of the day `doy` of the year that starts in March of `y`.
abbrev pub from_march : ℕ → ℕ → CivilDate
from_march y doy =
    let mp = (5 * doy + 2) / 153 in
    let d = doy - (153 * mp + 2) / 5 + 1 in
    let month = if ltb mp 10 then mp + 3 else mp - 9 in
    let year = if leb month 2 then y + 1 else y in record { year = year; month = month; day = d }

-- The days are not negative, so the Euclidean division is the one of ℕ, and no difference is below zero.
unfoldable pub civil : ℕ → CivilDate
civil days =
    let z = days + 719_468 in
    let era = z / 146_097 in
    let doe = z % 146_097 in
    let yoe = year_of_era doe in
    from_march (yoe + era * 400) (doe - (365 * yoe + yoe / 4 - yoe / 100))

pub record UtcTime : Type 0 where
  pub date : CivilDate
  pub hour : ℕ
  pub minute : ℕ
  pub second : ℕ

unfoldable pub utc_time : ℕ → UtcTime
utc_time unix_secs =
    let rem = unix_secs % 86_400 in
    record {
      date = civil (unix_secs / 86_400);
      hour = rem / 3600;
      minute = rem % 3600 / 60;
      second = rem % 60;
    }

-- `{:02}`.
abbrev pub pad2 : ℕ → Text
pad2 n = if ltb n 10 then b'0' ∷ show n else show n

-- `{:04}`.
abbrev pub pad4 : ℕ → Text
pad4 n = if ltb n 100 then b'0' ∷ b'0' ∷ pad2 n else if ltb n 1000 then b'0' ∷ show n else show n

unfoldable pub format_utc : ℕ → Text
format_utc unix_secs =
    let t = utc_time unix_secs in
    pad4 t.date.year
    ++ b'-'
      ∷ (pad2 t.date.month
          ++ b'-'
            ∷ (pad2 t.date.day
                ++ b' '
                  ∷ (pad2 t.hour
                      ++ b':' ∷ (pad2 t.minute ++ b':' ∷ (pad2 t.second ++ codes " UTC")))))
