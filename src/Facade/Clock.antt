-- ===== src/Facade/Clock.antt =====
-- The date of an export, `now_iso8601` (crates/stack_core/src/frb_api.rs). The seconds since the
-- epoch are not negative, so that the day numbers, `i64` in the code, are natural numbers.
pub mod Calendar
use stack_connect_core.Prelude.{
  ℕ, zero, suc, ◌+◌, ◌-◌, ◌*◌, ◌/◌, ◌%◌, String, ◌<>◌, Bool, ltb, leb, if◌then◌else◌, to_string,
}

pub record CivilTime : Type 0 where
  pub year : ℕ
  pub month : ℕ
  pub day : ℕ
  pub hour : ℕ
  pub minute : ℕ
  pub second : ℕ

-- `yoe`: the year of a 400-year era, which begins in March, from the day of the era.
abbrev pub year_of_era : ℕ → ℕ
year_of_era doe = (doe - doe / 1460 + doe / 36524 - doe / 146096) / 365

-- `doy`: the day of the year that begins in March.
abbrev pub day_of_year : ℕ → ℕ
day_of_year doe = let yoe = year_of_era doe in doe - (365 * yoe + yoe / 4 - yoe / 100)

-- `mp`: the month, from March on.
abbrev pub month_from_march : ℕ → ℕ
month_from_march doy = (5 * doy + 2) / 153

unfoldable pub civil_time : ℕ → CivilTime
civil_time secs =
    let days = secs / 86400 in
    let rem = secs % 86400 in
    let z = days + 719468 in
    let era = z / 146097 in
    let doe = z - era * 146097 in
    let yoe = year_of_era doe in
    let doy = day_of_year doe in
    let mp = month_from_march doy in
    let month = if ltb mp 10 then mp + 3 else mp - 9 in
    record {
      year = if leb month 2 then yoe + era * 400 + 1 else yoe + era * 400;
      month = month;
      day = doy - (153 * mp + 2) / 5 + 1;
      hour = rem / 3600;
      minute = rem % 3600 / 60;
      second = rem % 60;
    }

-- `{n:02}`
abbrev pub two_digits : ℕ → String
two_digits n = if ltb n 10 then "0" <> to_string n else to_string n

-- `{n:04}`
abbrev pub four_digits : ℕ → String
four_digits n =
    if ltb n 10
    then "000" <> to_string n
    else if ltb n 100
    then "00" <> to_string n
    else if ltb n 1000
    then "0" <> to_string n
    else to_string n

unfoldable pub now_iso8601 : ℕ → String
unfolding civil_time to_string
now_iso8601 secs =
    let t = civil_time secs in
    four_digits t.year
    <> "-"
    <> two_digits t.month
    <> "-"
    <> two_digits t.day
    <> "T"
    <> two_digits t.hour
    <> ":"
    <> two_digits t.minute
    <> ":"
    <> two_digits t.second
    <> "Z"
