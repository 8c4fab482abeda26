-- ===== src/Dates/Tests.antt =====
-- Times at both sides of a leap day, and the theorem of this folder at one.
use sessionhub.Base.{◌*◌, ◌/◌, ◌≡◌, refl}
use sessionhub.Dates.{Fields, fields_of, epoch_of_fields, parse_iso_fields}
use sessionhub.Dates.RoundTrip.{epoch_of_fields-fields_of}

abbrev leap_day : Fields
leap_day = record { year = 2024; month = 2; day = 29; hour = 23; minute = 59; second = 59 }

writes_a_leap_day : fields_of 1709251199000 ≡ leap_day
unfolding fields_of
writes_a_leap_day = refl

starts_in_1970 :
    fields_of 999 ≡ record { year = 1970; month = 1; day = 1; hour = 0; minute = 0; second = 0 }
unfolding fields_of
starts_in_1970 = refl

reads_a_leap_day : epoch_of_fields leap_day ≡ 1709251199000
unfolding epoch_of_fields
reads_a_leap_day = refl

epoch_of_fields-fields_of_example :
    (epoch_of_fields (fields_of 1709251199123) ≡ 1709251199123 / 1000 * 1000)
    × (parse_iso_fields (fields_of 1709251199123) ≡ 1709251199123 / 1000 * 1000)
epoch_of_fields-fields_of_example = epoch_of_fields-fields_of 1709251199123
