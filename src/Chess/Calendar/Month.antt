-- ===== src/Chess/Calendar/Month.antt =====
-- The start of the current month.
use ka_chat_indexer.Prelude.{
  ℕ, ◌+◌, ◌-◌, ◌*◌, ◌/◌, ◌^◌, ◌≤◌, ◌<◌, ◌≡◌, refl, ◌∙◌, sym, nat_eq, arith,
}
use ka_chat_indexer.Prelude.Int.{
  plus_pos, times_pos, minus_pos, times_i64, pos, ◌-ℤ◌, mul_i64, IsI64,
}
use ka_chat_indexer.Chess.Calendar.{day_ms, div_euclid, month_start, utc_month_start_ms}
use ka_chat_indexer.Chess.Calendar.Civil.{days_of_years_lem, first_day, IsMonthOf, month_day-parts}

-- The day that the code finds, of a time that is not before the epoch.
day_of : ℕ → ℕ
day_of z = z / 146097 * 146097 + month_start (z - z / 146097 * 146097)

utc_month_start_ms-day :
    (n : ℕ)
    → utc_month_start_ms (pos n)
      ≡ mul_i64 (pos (day_of (n / 86400000 + 719468)) -ℤ pos 719468) (pos day_ms)
unfolding utc_month_start_ms div_euclid day_of
utc_month_start_ms-day n =
    let z = n / 86400000 + 719468 in
    let era = z / 146097 in
    rw
      (
        plus_pos (n / 86400000) 719468,
        times_pos era 146097,
        minus_pos z (era * 146097) (omega arith),
        plus_pos (era * 146097) (month_start (z - era * 146097)),
      )
      refl

-- In milliseconds from 1 January 1970, which is the day 719468: the last first day of a month that
-- is not after `now`.
pub record IsMonthStart (now start : ℕ) : Type 0 where
  pub year : ℕ
  pub month : ℕ
  pub real : month ≤ 11
  pub first : start + 719468 * day_ms ≡ first_day year month * day_ms
  pub before : start ≤ now
  pub last :
      (y m : ℕ)
      → m ≤ 11
      → first_day y m * day_ms ≤ now + 719468 * day_ms
      → first_day y m * day_ms ≤ start + 719468 * day_ms

epoch : first_day 1969 10 ≡ 719468
unfolding first_day
epoch = let a = days_of_years_lem 1969 in omega arith

day_of-IsMonthOf : (z : ℕ) → IsMonthOf z (day_of z)
unfolding day_of
day_of-IsMonthOf z =
    month_day-parts (z / 146097) (z - z / 146097 * 146097) z (omega arith) (omega arith)

-- For a time from 1970 on, the start of the month is the midnight that begins the last first day of
-- a month of the Gregorian calendar that is not after it.
pub utc_month_start_ms-IsMonthStart :
    (n : ℕ)
    → n < 2 ^ 63
    → (start : ℕ) × (utc_month_start_ms (pos n) ≡ pos start) × IsMonthStart n start
utc_month_start_ms-IsMonthStart n bound =
    let z = n / 86400000 + 719468 in
    let m = day_of-IsMonthOf z in
    let since = m.last 1969 10 (omega arith) (rw epoch (omega arith)) in
    let at_epoch = epoch in
    let from_epoch : 719468 ≤ day_of z = omega (arith, since, at_epoch) in
    let early = m.before in
    let start = (day_of z - 719468) * day_ms in
    let small : IsI64 (pos start) = omega arith in
    (
      start,
      utc_month_start_ms-day n
          ∙ rw (minus_pos (day_of z) 719468 from_epoch)
              (times_i64 (day_of z - 719468) day_ms small),
      record {
        year = m.year;
        month = m.month;
        real = m.real;
        first = rw (sym m.first) (omega arith);
        before = omega arith;
        last = λ y k r h. let l = m.last y k r (omega arith) in omega arith;
      },
    )
