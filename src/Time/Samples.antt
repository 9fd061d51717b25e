-- ===== src/Time/Samples.antt =====
-- An interval with an uneven caller, and a coroutine that ends in time.
use tonio.Prelude.{ℕ, ◌≡◌, List, [], ◌∷◌, arith}
use tonio.Time.{Interval, ticks, returned, Move, ends, wakes, started, run}
use tonio.Time.Ticks.{ticks_exact}
use tonio.Time.Expiry.{expected, is_expired, timeout_result}

abbrev every_ten : Interval
every_ten = record { deadline = 100; len = 10 }

abbrev in_time : List (Move ℕ ℕ)
in_time = ends (returned 7) ∷ wakes ∷ []

timeout_result_example :
    let t = run started in_time in
    (t.answer ≡ expected in_time) × (t.unwound ≡ is_expired (expected in_time))
timeout_result_example = timeout_result in_time

-- A caller that comes late is given the next tick.
late_caller : ticks (95 ∷ 104 ∷ []) every_ten ≡ 100 ∷ 110 ∷ []
late_caller = ticks_exact (95 ∷ 104 ∷ []) every_ten (omega arith, (omega arith, tt))
