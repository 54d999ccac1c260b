-- ===== src/Chess/Calendar/Civil.antt =====
-- The first days of the months of the civil calendar.
use ka_chat_indexer.Prelude.{
  ℕ, zero, suc, ◌+◌, ◌-◌, ◌*◌, ◌/◌, ◌%◌, ◌≤◌, ◌<◌, ◌≡◌, inl, inr, ltb, ltb→lt, Bool-cases, refl,
  sym, Bool, ◌&&◌, ◌||◌, not, [], ◌∷◌, ◌==◌, nat_eq, get_or, if◌then◌else◌, arith,
}
use ka_chat_indexer.Chess.Calendar.{year_days, year_of_era, month_start}

-- The Gregorian leap years.
abbrev is_leap : ℕ → Bool
is_leap y = y % 4 == 0 && (not (y % 100 == 0) || y % 400 == 0)

-- The days of the first `y` years from 1 March of the year 0: each ends with the February of the
-- next year of the calendar.
pub days_of_years : ℕ → ℕ
days_of_years zero = 0
days_of_years (suc y) = days_of_years y + (if is_leap (suc y) then 366 else 365)

-- The days before a month, of a year that begins in March.
abbrev pub days_before_month : ℕ → ℕ
days_before_month m =
    get_or (0 ∷ 31 ∷ 61 ∷ 92 ∷ 122 ∷ 153 ∷ 184 ∷ 214 ∷ 245 ∷ 275 ∷ 306 ∷ 337 ∷ []) m 0

-- The number of the first day of a month, from 1 March of the year 0.
unfoldable pub first_day : ℕ → ℕ → ℕ
unfolding days_of_years
first_day y m = days_of_years y + days_before_month m

pub days_of_years_lem : (y : ℕ) → days_of_years y ≡ 365 * y + y / 4 + y / 400 - y / 100
unfolding days_of_years
days_of_years_lem zero = refl
days_of_years_lem (suc y) = let h = days_of_years_lem y in ground (arith, h)

days_before_month_lem : (m : ℕ) → m ≤ 11 → days_before_month m ≡ (153 * m + 2) / 5
days_before_month_lem m h = ground (arith, h)

-- The year and the month of a day of an era.
month_of_era : ℕ → ℕ
month_of_era doe = (5 * (doe - year_days (year_of_era doe)) + 2) / 153

year_of_era_lem :
    (doe : ℕ)
    → doe < 146097
    → (year_days (year_of_era doe) ≤ doe)
      × (doe ≤ year_days (year_of_era doe) + 365)
      × (year_of_era doe ≤ 399)
unfolding year_days year_of_era
year_of_era_lem doe h = (omega arith, omega arith, omega arith)

-- The day is before the next year's first.
next_year :
    (doe : ℕ)
    → doe < 146097
    → doe
      < 365 * (year_of_era doe + 1)
        + (year_of_era doe + 1) / 4
        + (year_of_era doe + 1) / 400
        - (year_of_era doe + 1) / 100
unfolding year_of_era
next_year doe h = omega arith

month_lem :
    (doy : ℕ)
    → doy ≤ 365
    → ((5 * doy + 2) / 153 ≤ 11)
      × ((153 * ((5 * doy + 2) / 153) + 2) / 5 ≤ doy)
      × ((m : ℕ)
          → (153 * m + 2) / 5 ≤ doy
          → (153 * m + 2) / 5 ≤ (153 * ((5 * doy + 2) / 153) + 2) / 5)
month_lem doy h = (omega arith, omega arith, λ m k. omega arith)

days_of_years_mono : (y z : ℕ) → y ≤ z → days_of_years y + 365 * (z - y) ≤ days_of_years z
days_of_years_mono y z h = let a = days_of_years_lem y in let b = days_of_years_lem z in omega arith

era_days : (era y : ℕ) → y ≤ 399 → days_of_years (400 * era + y) ≡ era * 146097 + year_days y
unfolding year_days
era_days era y h = let a = days_of_years_lem (400 * era + y) in omega arith

era_next :
    (era doe : ℕ)
    → doe < 146097
    → era * 146097 + doe < days_of_years (400 * era + year_of_era doe + 1)
era_next era doe h =
    let a = days_of_years_lem (400 * era + year_of_era doe + 1) in
    let b = next_year doe h in omega arith

-- The last first day of a month that is not after the day `z`.
pub record IsMonthOf (z day : ℕ) : Type 0 where
  pub year : ℕ
  pub month : ℕ
  pub real : month ≤ 11
  pub first : day ≡ first_day year month
  pub before : day ≤ z
  pub last : (y m : ℕ) → m ≤ 11 → first_day y m ≤ z → first_day y m ≤ day

-- No first day of a month stands between that of the month `month` of the year `year` and `z`.
last_first :
    (z year month y m : ℕ)
    → month ≤ 11
    → m ≤ 11
    → z < days_of_years (year + 1)
    → days_of_years year ≤ z
    → ((k : ℕ)
        → (153 * k + 2) / 5 ≤ z - days_of_years year
        → (153 * k + 2) / 5 ≤ (153 * month + 2) / 5)
    → first_day y m ≤ z
    → first_day y m ≤ first_day year month
unfolding first_day
last_first z year month y m real r next start greatest h =
    let a = days_before_month_lem m r in
    let b = days_before_month_lem month real in
    let up = days_of_years_mono (year + 1) y in
    let down = days_of_years_mono y year in
    elim (Bool-cases (ltb y year)) [
      | inl p ↦ let less = ltb→lt y year p in let d = down (omega arith) in omega arith
      | inr p ↦ elim (Bool-cases (ltb year y)) [
        | inl q ↦ let more = ltb→lt year y q in let u = up (omega arith) in omega arith
        | inr q ↦
            let same : y ≡ year = ground (arith, p, q) in
            let h' : days_of_years year + days_before_month m ≤ z = rw (sym same) h in
            let g = greatest m (omega arith) in rw same (omega arith)
      ]
    ]

pub month_day-parts :
    (era doe z : ℕ)
    → doe < 146097
    → z ≡ era * 146097 + doe
    → IsMonthOf z (era * 146097 + month_start doe)
unfolding month_start first_day
month_day-parts era doe z small e =
    let yoe = year_of_era doe in
    let (low, high, cycle) = year_of_era_lem doe small in
    let (real, start, greatest) = month_lem (doe - year_days yoe) (omega arith) in
    let month = (5 * (doe - year_days yoe) + 2) / 153 in
    let year = 400 * era + yoe in
    let days = era_days era yoe cycle in
    let next = era_next era doe small in
    let months = days_before_month_lem month real in
    let first : era * 146097 + month_start doe ≡ first_day year month = omega arith in
    let day_of_year : z - days_of_years year ≡ doe - year_days yoe = omega arith in
    record {
      year = year;
      month = month;
      real = real;
      first = first;
      before = omega arith;
      last = λ y m r h. rw first (
          last_first z year month y m real r (omega arith) (omega arith)
            (λ k g. greatest k (rw (sym day_of_year) g)) h);
    }
