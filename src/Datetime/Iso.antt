-- ===== src/Datetime/Iso.antt =====
-- `value.astimezone(UTC).isoformat().replace("+00:00", "Z")` of a number of microseconds from
-- `datetime.min`: the date by the proleptic Gregorian calendar, and a fraction only if it is not zero.
use the_council.Prelude.{◌≡◌, refl, ℕ, ◌+◌, ◌-◌, ◌*◌, ◌/◌, ◌%◌, false, if◌then◌else◌, leb, eqb, ltb}
use the_council.Prelude.Sort.{str_leb}
use Prim.Native.String.{String, ◌++◌}
use the_council.Prelude.Digits.{padded}

-- Days are counted from the first of March of the year 0, so that a leap day ends its year; 400 years, an
-- era, have 146097 days.
abbrev year_of_era : ℕ → ℕ
year_of_era day = (day + day / 36_524 - day / 1_460 - day / 146_096) / 365

abbrev day_of_year : ℕ → ℕ
day_of_year day = let years = year_of_era day in day - (365 * years + years / 4 - years / 100)

-- Months from March, which is 0.
abbrev month_of : ℕ → ℕ
month_of day = (5 * day + 2) / 153

abbrev date_text : ℕ → ℕ → String
date_text era day =
    let months = month_of (day_of_year day) in
    let date = day_of_year day - (153 * months + 2) / 5 + 1 in
    let month = if ltb months 10 then months + 3 else months - 9 in
    let year = era * 400 + year_of_era day + (if leb month 2 then 1 else 0) in
    padded 4 year ++ ("-" ++ (padded 2 month ++ ("-" ++ padded 2 date)))

abbrev fraction_text : ℕ → String
fraction_text n = if eqb n 0 then "" else "." ++ padded 6 n

-- `_time_text`.
unfoldable pub time_text : ℕ → String
time_text t =
    let seconds = t / 1_000_000 in
    let days = seconds / 86_400 + 306 in
    date_text (days / 146_097) (days % 146_097)
    ++ ("T"
        ++ (padded 2 (seconds / 3_600 % 24)
            ++ (":"
                ++ (padded 2 (seconds / 60 % 60)
                    ++ (":"
                        ++ (padded 2 (seconds % 60) ++ (fraction_text (t % 1_000_000) ++ "Z")))))))

-- The first instant, and one of the year 2024 with a fraction.
first_text : time_text 0 ≡ "0001-01-01T00:00:00Z"
unfolding time_text
first_text = refl

later_text : time_text 63_844_804_800_500_000 ≡ "2024-02-29T12:00:00.500000Z"
unfolding time_text
later_text = refl

-- The texts are not in the order of time: a fraction comes before the whole second it follows.
out_of_order : str_leb (time_text 63_844_804_800_000_000) (time_text 63_844_804_800_500_000) ≡ false
unfolding time_text
out_of_order = refl
