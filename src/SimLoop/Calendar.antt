-- ===== src/SimLoop/Calendar.antt =====
-- packages/engine/src/sim-loop.ts: the 360-day calendar.
use worldsimulator.Prelude.{ℕ, ◌+◌, ◌-◌, ◌/◌, ◌%◌, Bool, ◌||◌, ◌∷◌, ◌++◌, ltb, ◌==◌, if◌then◌else◌}
use worldsimulator.Prelude.Int.{ℤ, pos, negsuc}
use worldsimulator.Prelude.Decimal.{Text, print}
use worldsimulator.Prelude.Results.{Result, ok, err, validation_failed, ◌>>=◌}
use worldsimulator.Ids.{pad_start}

abbrev pub ticks_per_year : ℕ
ticks_per_year = 360

abbrev pub ticks_per_month : ℕ
ticks_per_month = 30

-- `pad(n, width)`
unfoldable pub pad : ℕ → ℕ → Text
pad n width = pad_start width (print n)

abbrev date_of_day : ℕ → Text
date_of_day day_index =
    let day_of_year = day_index % ticks_per_year in
    (b'Y' ∷ pad (day_index / ticks_per_year + 1) 4)
    ++ (b'-' ∷ b'M' ∷ pad (day_of_year / ticks_per_month + 1) 2)
    ++ (b'-' ∷ b'D' ∷ pad (day_of_year % ticks_per_month + 1) 2)

unfoldable pub sim_date_for_tick : ℤ → Result Text
sim_date_for_tick (pos tick) = ok (date_of_day (tick - 1))
sim_date_for_tick (negsuc _) = err validation_failed

unfoldable pub day_of_month : ℤ → Result ℕ
day_of_month (pos tick) =
    if ltb tick 1 then err validation_failed else ok ((tick - 1) % ticks_per_month + 1)
day_of_month (negsuc _) = err validation_failed

unfoldable pub is_payroll_day : ℤ → Result Bool
unfolding day_of_month
is_payroll_day tick = do day ← day_of_month tick; ok (day == 15 || day == 30)
