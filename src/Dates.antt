-- ===== src/Dates.antt =====
-- The times of src/registry.rs and src/tasks.rs: milliseconds since 1970 as the fields of a civil date
-- and back. The text that the fields are written in is not here: it has four digits for the year, so
-- that only the years up to 9999 can be read from it. Nor are the bounds of the source's 64-bit
-- numbers, which a time of such a year does not come near.
pub mod RoundTrip
mod Tests
use sessionhub.Base.{ℕ, ◌+◌, ◌-◌, ◌*◌, ◌/◌, ◌%◌, Bool, true, false, ltb, leb, if◌then◌else◌}

-- A time in UTC, as `iso8601` writes it.
pub record Fields : Type 0 where
  pub year : ℕ
  pub month : ℕ
  pub day : ℕ
  pub hour : ℕ
  pub minute : ℕ
  pub second : ℕ

-- Days from the first of March of year 0 to 1970, which the algorithms count from.
abbrev pub shift : ℕ
shift = 719468

-- The year within its era, from the day within it.
unfoldable pub year_of_era : ℕ → ℕ
year_of_era doe = (doe - doe / 1460 + doe / 36524 - doe / 146096) / 365

-- The day within the year, which starts in March, from the day and the year within the era.
abbrev pub day_of_year : ℕ → ℕ → ℕ
day_of_year doe yoe = doe - (365 * yoe + yoe / 4 - yoe / 100)

abbrev pub month_of : ℕ → ℕ
month_of mp = if ltb mp 10 then mp + 3 else mp - 9

-- `iso8601` gives days since 1970, which are none below 0: year, month and day.
unfoldable pub civil_from_days : ℕ → ℕ × ℕ × ℕ
unfolding year_of_era
civil_from_days days =
    let z : ℕ = days + shift in
    let doe : ℕ = z - z / 146097 * 146097 in
    let yoe : ℕ = year_of_era doe in
    let doy : ℕ = day_of_year doe yoe in
    let mp : ℕ = (5 * doy + 2) / 153 in
    let y : ℕ = yoe + z / 146097 * 400 in
    let m : ℕ = month_of mp in (if leb m 2 then y + 1 else y, m, doy - (153 * mp + 2) / 5 + 1)

-- The fields that `iso8601` writes.
unfoldable pub fields_of : ℕ → Fields
unfolding civil_from_days
fields_of ms =
    let secs : ℕ = ms / 1000 in
    let date = civil_from_days (secs / 86400) in
    let rem : ℕ = secs % 86400 in
    record {
      year = date.0;
      month = date.1;
      day = date.2;
      hour = rem / 3600;
      minute = rem % 3600 / 60;
      second = rem % 60;
    }

-- The days from the first of March of year 0 to a date, for a month given as that since March.
unfoldable pub days_from_march : ℕ → ℕ → ℕ → ℕ
days_from_march y mp d =
    let yoe : ℕ = y - y / 400 * 400 in
    y / 400 * 146097 + (yoe * 365 + yoe / 4 - yoe / 100) + (153 * mp + 2) / 5 + d - 1

-- `days_from_civil`, `shift` days more.
unfoldable pub days_from_civil : ℕ → ℕ → ℕ → ℕ
unfolding days_from_march
days_from_civil y m d =
    days_from_march (if leb m 2 then y - 1 else y) (if ltb 2 m then m - 3 else m + 9) d

-- What `epoch_of` makes of the fields it has read: below 0 is 0.
unfoldable pub epoch_of_fields : Fields → ℕ
unfolding days_from_civil
epoch_of_fields f =
    (days_from_civil f.year f.month f.day * 86400
      + f.hour * 3600
      + f.minute * 60
      + f.second
      - shift * 86400)
    * 1000

-- What `parse_iso` of the tasks makes of them.
unfoldable pub parse_iso_fields : Fields → ℕ
unfolding days_from_march
parse_iso_fields f =
    let y : ℕ = if leb f.month 2 then f.year - 1 else f.year in
    (days_from_march y ((f.month + 9) % 12) f.day * 86400
      + f.hour * 3600
      + f.minute * 60
      + f.second
      - shift * 86400)
    * 1000
