-- ===== src/Dates/RoundTrip.antt =====
-- The fields that `iso8601` writes for a time, under `epoch_of` and `parse_iso`.
use sessionhub.Base.{
  ℕ, ◌+◌, ◌-◌, ◌*◌, ◌/◌, ◌%◌, ◌≤◌, ◌<◌, ◌≡◌, refl, ap₂, ◌∙◌, Bool, true, false, ltb, leb,
  if◌then◌else◌, arith,
}
use sessionhub.Dates.{
  Fields, shift, year_of_era, day_of_year, month_of, civil_from_days, fields_of, days_from_march,
  days_from_civil, epoch_of_fields, parse_iso_fields,
}

year_of_era-bound : (doe : ℕ) → doe < 146097 → year_of_era doe < 400
unfolding year_of_era
year_of_era-bound doe h = omega arith

day_of_year-start :
    (doe : ℕ)
    → doe < 146097
    → 365 * year_of_era doe + year_of_era doe / 4 - year_of_era doe / 100 ≤ doe
unfolding year_of_era
day_of_year-start doe h = omega arith

day_of_year-bound : (doe : ℕ) → doe < 146097 → day_of_year doe (year_of_era doe) < 366
unfolding year_of_era
day_of_year-bound doe h = omega arith

-- The month since March is found again from the month.
abbrev march_of : ℕ → ℕ
march_of m = if ltb 2 m then m - 3 else m + 9

march_of-month_of : (mp : ℕ) → mp < 12 → march_of (month_of mp) ≡ mp
march_of-month_of mp h = ground arith

days_from_march-era :
    (era yoe mp d : ℕ)
    → yoe < 400
    → days_from_march (yoe + era * 400) mp d
      ≡ era * 146097 + (yoe * 365 + yoe / 4 - yoe / 100) + (153 * mp + 2) / 5 + d - 1
unfolding days_from_march
days_from_march-era era yoe mp d h =
    let e : (yoe + era * 400) / 400 ≡ era = omega arith in
    let y : yoe + era * 400 - era * 400 ≡ yoe = omega arith in rw (e, y)

year_back :
    (b : Bool) (y : ℕ) → (if b then (if b then y + 1 else y) - 1 else if b then y + 1 else y) ≡ y
year_back true y = omega arith
year_back false y = refl

civil_back :
    (y mp d : ℕ)
    → mp < 12
    → days_from_civil (if leb (month_of mp) 2 then y + 1 else y) (month_of mp) d
      ≡ days_from_march y mp d
unfolding days_from_civil
civil_back y mp d h =
    ap₂ (λ a b. days_from_march a b d) (year_back (leb (month_of mp) 2) y) (march_of-month_of mp h)

day_back :
    (z era doe yoe : ℕ)
    → z ≡ era * 146097 + doe
    → 365 * yoe + yoe / 4 - yoe / 100 ≤ doe
    → let doy : ℕ = day_of_year doe yoe in
      let mp : ℕ = (5 * doy + 2) / 153 in
      era * 146097
        + (yoe * 365 + yoe / 4 - yoe / 100)
        + (153 * mp + 2) / 5
        + (doy - (153 * mp + 2) / 5 + 1)
        - 1
      ≡ z
day_back z era doe yoe e h = omega arith

-- The days of a civil date are those it was made of.
pub days_from_civil-civil_from_days :
    (days : ℕ)
    → days_from_civil (civil_from_days days).0 (civil_from_days days).1 (civil_from_days days).2
      ≡ days + shift
unfolding civil_from_days
days_from_civil-civil_from_days days =
    let z : ℕ = days + shift in
    let era : ℕ = z / 146097 in
    let doe : ℕ = z - era * 146097 in
    let in_era : doe < 146097 = omega arith in
    let yoe : ℕ = year_of_era doe in
    let doy : ℕ = day_of_year doe yoe in
    let mp : ℕ = (5 * doy + 2) / 153 in
    let d : ℕ = doy - (153 * mp + 2) / 5 + 1 in
    civil_back (yoe + era * 400) mp d (omega (arith, day_of_year-bound doe in_era))
    ∙ days_from_march-era era yoe mp d (year_of_era-bound doe in_era)
    ∙ day_back z era doe yoe (omega arith) (day_of_year-start doe in_era)

-- The month and the day that `iso8601` writes are those of a calendar.
pub civil_from_days-bounds :
    (days : ℕ)
    → (1 ≤ (civil_from_days days).1)
      × ((civil_from_days days).1 ≤ 12)
      × (1 ≤ (civil_from_days days).2)
      × ((civil_from_days days).2 ≤ 31)
unfolding civil_from_days
civil_from_days-bounds days =
    let z : ℕ = days + shift in
    let doe : ℕ = z - z / 146097 * 146097 in
    let in_era : doe < 146097 = omega arith in
    let bound = day_of_year-bound doe in_era in ground (arith, bound)

march_again : (m : ℕ) → 1 ≤ m → m ≤ 12 → (m + 9) % 12 ≡ march_of m
march_again m low high = ground arith

parse_iso_fields-epoch_of_fields :
    (f : Fields) → 1 ≤ f.month → f.month ≤ 12 → parse_iso_fields f ≡ epoch_of_fields f
unfolding parse_iso_fields epoch_of_fields days_from_civil
parse_iso_fields-epoch_of_fields f low high = rw (parse_iso_fields, march_again f.month low high)

-- The fields that `iso8601` writes for a time are read back by `epoch_of` as that time, cut to the
-- whole second; `parse_iso` of the tasks, which counts the months in another way, reads the same.
pub epoch_of_fields-fields_of :
    (ms : ℕ)
    → (epoch_of_fields (fields_of ms) ≡ ms / 1000 * 1000)
      × (parse_iso_fields (fields_of ms) ≡ ms / 1000 * 1000)
unfolding epoch_of_fields fields_of
epoch_of_fields-fields_of ms =
    let secs : ℕ = ms / 1000 in
    let days = days_from_civil-civil_from_days (secs / 86400) in
    let back : epoch_of_fields (fields_of ms) ≡ secs * 1000 = omega (arith, days) in
    let bounds = civil_from_days-bounds (secs / 86400) in
    (back, parse_iso_fields-epoch_of_fields (fields_of ms) bounds.0 bounds.1 ∙ back)
