-- ===== src/Chess/Calendar.antt =====
-- kachat-webserver/src/chess.rs: the leaderboards' periods.
pub mod Civil
pub mod Month
use ka_chat_indexer.Prelude.{ℕ, ◌+◌, ◌-◌, ◌*◌, ◌/◌, Bool, if◌then◌else◌}
use ka_chat_indexer.Prelude.Int.{ℤ, pos, negsuc, pos_part, ◌+ℤ◌, ◌-ℤ◌, ◌*ℤ◌, mul_i64, max_ℤ}

abbrev pub leaderboard_fresh_from_ms : ℤ
leaderboard_fresh_from_ms = pos 1792647960000

abbrev pub day_ms : ℕ
day_ms = 86400000

-- `div_euclid` by a positive number: the quotient is rounded down.
unfoldable pub div_euclid : ℤ → ℕ → ℤ
div_euclid (pos a) n = pos (a / n)
div_euclid (negsuc a) n = negsuc (a / n)

-- The days of the first `yoe` years of an era, which begins on 1 March.
unfoldable pub year_days : ℕ → ℕ
year_days yoe = 365 * yoe + yoe / 4 - yoe / 100

unfoldable pub year_of_era : ℕ → ℕ
year_of_era doe = (doe - doe / 1460 + doe / 36524 - doe / 146096) / 365

-- The day of the era on which the month of the day `doe` of the era starts.
unfoldable pub month_start : ℕ → ℕ
unfolding year_days year_of_era
month_start doe =
    let yoe = year_of_era doe in
    let doy = doe - year_days yoe in
    let mp = (5 * doy + 2) / 153 in year_days yoe + (153 * mp + 2) / 5

-- Nothing but the last product can leave the range of an `i64`.
unfoldable pub utc_month_start_ms : ℤ → ℤ
unfolding div_euclid month_start ◌+ℤ◌ ◌-ℤ◌ ◌*ℤ◌ mul_i64
utc_month_start_ms now_ms =
    let z = div_euclid now_ms day_ms +ℤ pos 719468 in
    let era = div_euclid z 146097 in
    let doe = pos_part (z -ℤ era *ℤ pos 146097) in
    mul_i64 (era *ℤ pos 146097 +ℤ pos (month_start doe) -ℤ pos 719468) (pos day_ms)

unfoldable pub period_since_ms : Bool → ℤ → ℤ
unfolding utc_month_start_ms
period_since_ms monthly now_ms =
    if monthly
    then max_ℤ leaderboard_fresh_from_ms (utc_month_start_ms now_ms)
    else leaderboard_fresh_from_ms
