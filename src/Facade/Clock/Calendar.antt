-- ===== src/Facade/Clock/Calendar.antt =====
-- `now_iso8601` names the right day (crates/stack_core/src/frb_api.rs).
use stack_connect_core.Prelude.{
  ℕ, ◌+◌, ◌-◌, ◌*◌, ◌/◌, ◌%◌, ◌≤◌, ◌<◌, ◌≡◌, ◌∙◌, ◌&&◌, ◌||◌, not, Bool, true, ltb, leb, eqb, arith,
  if◌then◌else◌,
}
use stack_connect_core.Facade.Clock.{
  CivilTime, year_of_era, day_of_year, month_from_march, civil_time,
}

-- The leap years of the Gregorian calendar.
abbrev pub is_leap : ℕ → Bool
is_leap year = eqb (year % 4) 0 && (not (eqb (year % 100) 0) || eqb (year % 400) 0)

-- How many days a month has, in a leap year or not.
abbrev pub month_length : Bool → ℕ → ℕ
month_length leap month =
    if eqb month 2
    then (if leap then 29 else 28)
    else if eqb month 4 || eqb month 6 || eqb month 9 || eqb month 11
    then 30
    else 31

-- How many days of the year are in front of a month, where the year begins in March.
abbrev pub days_before : ℕ → ℕ
days_before month =
    if eqb month 3
    then 0
    else if eqb month 4
    then 31
    else if eqb month 5
    then 61
    else if eqb month 6
    then 92
    else if eqb month 7
    then 122
    else if eqb month 8
    then 153
    else if eqb month 9
    then 184
    else if eqb month 10
    then 214
    else if eqb month 11
    then 245
    else if eqb month 12
    then 275
    else if eqb month 1
    then 306
    else 337

-- January and February belong to the year that began the March before.
abbrev pub march_year : ℕ → ℕ → ℕ
march_year year month = if leb month 2 then year - 1 else year

-- The number of a day, from the 1st of March of the year 0 on: 365 days for each year, one more for
-- each leap day, and the days of the year itself.
abbrev pub day_number : ℕ → ℕ → ℕ → ℕ
day_number year month day =
    let y = march_year year month in
    365 * y + (y / 4) - (y / 100) + (y / 400) + days_before month + (day - 1)

module _ (doe : ℕ) (h : doe < 146097) where
  year_of_era_lt : year_of_era doe < 400
  year_of_era_lt = omega arith

  day_of_year_le : day_of_year doe ≤ 365
  day_of_year_le = omega arith

  day_of_era :
      doe ≡ 365 * year_of_era doe + year_of_era doe / 4 - year_of_era doe / 100 + day_of_year doe
  day_of_era = omega arith

  -- A year has a 366th day only if the February at its end has 29.
  last_day : day_of_year doe ≡ 365 → is_leap (year_of_era doe + 1) ≡ true
  last_day e = ground arith

abbrev month_of : ℕ → ℕ
month_of doy = let mp = month_from_march doy in if ltb mp 10 then mp + 3 else mp - 9

abbrev day_of : ℕ → ℕ
day_of doy = doy - (153 * month_from_march doy + 2) / 5 + 1

module _ (doy : ℕ) (h : doy ≤ 365) where
  month_range : (1 ≤ month_of doy) × (month_of doy ≤ 12)
  month_range = ground arith

  days_before_month : days_before (month_of doy) + (day_of doy - 1) ≡ doy
  days_before_month = ground arith

  day_fits :
      (leap : Bool) → (doy ≡ 365 → leap ≡ true) → day_of doy ≤ month_length leap (month_of doy)
  day_fits leap k = ground arith

abbrev year_of : ℕ → ℕ → ℕ
year_of y month = if leb month 2 then y + 1 else y

march_year-year_of : (y month : ℕ) → march_year (year_of y month) month ≡ y
march_year-year_of y month = ground arith

-- A 400-year era has 146097 days.
days_of_years :
    (yoe era : ℕ)
    → yoe < 400
    → let y = yoe + era * 400 in
      365 * y + y / 4 - y / 100 + y / 400 ≡ era * 146097 + (365 * yoe + yoe / 4 - yoe / 100)
days_of_years yoe era h = omega arith

is_leap-era : (yoe era : ℕ) → is_leap (yoe + 1) ≡ true → is_leap (yoe + era * 400 + 1) ≡ true
is_leap-era yoe era h = ground arith

in_february : (doy : ℕ) → doy ≡ 365 → leb (month_of doy) 2 ≡ true
in_february doy e = ground arith

add_days :
    (n era k doe doy d p : ℕ)
    → n ≡ era * 146097 + k
    → d + p ≡ doy
    → doe ≡ k + doy
    → n + d + p ≡ era * 146097 + doe
add_days n era k doe doy d p b a c = omega arith

split_era :
    (days : ℕ)
    → let z = days + 719468 in z / 146097 * 146097 + (z - z / 146097 * 146097) ≡ 719468 + days
split_era days = omega arith

module _ (era doe : ℕ) (h : doe < 146097) where
  abbrev doy : ℕ
  doy = day_of_year doe

  abbrev y : ℕ
  y = year_of_era doe + era * 400

  last_of_february : doy ≡ 365 → is_leap (year_of y (month_of doy)) ≡ true
  last_of_february e = rw (in_february doy e) (is_leap-era (year_of_era doe) era (last_day doe h e))

  numbered : day_number (year_of y (month_of doy)) (month_of doy) (day_of doy) ≡ era * 146097 + doe
  numbered =
      let a = days_before_month doy (day_of_year_le doe h) in
      let b = days_of_years (year_of_era doe) era (year_of_era_lt doe h) in
      let c = day_of_era doe h in
      let d = add_days _ era _ doe (day_of_year doe) _ _ b a c in
      rw (march_year-year_of y (month_of doy)) d

in_era : (z : ℕ) → z - z / 146097 * 146097 < 146097
in_era z = omega arith

-- The time is a valid one of the calendar, its day is as many days behind the 1st of January 1970 as
-- there are whole days in the seconds, and its hours, minutes and seconds are what is left of them.
pub record IsTimeOf (secs : ℕ) (t : CivilTime) : Type 0 where
  pub right_day : day_number t.year t.month t.day ≡ day_number 1970 1 1 + secs / 86400
  pub right_time : t.hour * 3600 + t.minute * 60 + t.second ≡ secs % 86400
  pub month_is : (1 ≤ t.month) × (t.month ≤ 12)
  pub day_is : (1 ≤ t.day) × (t.day ≤ month_length (is_leap t.year) t.month)
  pub hour_is : t.hour < 24
  pub minute_is : t.minute < 60
  pub second_is : t.second < 60

-- For every number of seconds since the epoch, the time that `now_iso8601` prints is a valid time
-- of the Gregorian calendar, leap years included, and the one that is so many seconds behind the
-- beginning of 1970.
pub civil_time-IsTimeOf : (secs : ℕ) → IsTimeOf secs (civil_time secs)
unfolding civil_time
civil_time-IsTimeOf secs = record {
  right_day = numbered _ _ (in_era (secs / 86400 + 719468)) ∙ split_era (secs / 86400);
  right_time = omega arith;
  month_is = month_range _ (day_of_year_le _ (in_era (secs / 86400 + 719468)));
  day_is = (
    omega arith,
    day_fits _ (day_of_year_le _ (in_era (secs / 86400 + 719468))) _
        (last_of_february _ _ (in_era (secs / 86400 + 719468))),
  );
  hour_is = omega arith;
  minute_is = omega arith;
  second_is = omega arith;
}
