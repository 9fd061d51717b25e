-- ===== src/Runtime/Schedule/Samples.antt =====
-- Two workers that go idle, and a producer.
use tonio.Prelude.{arith, ◌+◌, ◌%◌, ◌≡◌, refl, true, some, List, [], ◌∷◌, get_elem?, total}
use tonio.Runtime.Schedule.{
  parked, Worker, Move, misses, finds, returns, forces, calls, goes, adds, subtracts, idle_count,
  start, step, run,
}
use tonio.Runtime.Schedule.Tokens.{token, waker, flag}
use tonio.Runtime.Schedule.Accounting.{speculation_accounted, rest_wakes}

-- Both workers park.
abbrev idle : List Move
idle = misses 0 ∷ adds ∷ misses 0 ∷ misses 1 ∷ misses 1 ∷ adds ∷ []

-- One is woken before its flag is counted, finds work, and wakes the other.
abbrev woken : List Move
woken =
    misses 0
    ∷ misses 0
    ∷ misses 1
    ∷ misses 1
    ∷ adds
    ∷ calls 0
    ∷ goes 0
    ∷ subtracts
    ∷ returns 0
    ∷ finds 0
    ∷ []

speculation_accounted_example :
    let s = run (start 2 1) woken in
    (s.speculation ≡ total token s.workers + total waker s.producers)
    × (s.added + s.adding ≡ total flag s.workers + s.owed + s.subtracted)
    × ((idle_count s + s.adding) % 18446744073709551616
        ≡ (total flag s.workers + s.owed) % 18446744073709551616)
speculation_accounted_example = speculation_accounted 2 1 woken

abbrev sleeping : Worker
sleeping = record { place = parked; idle = true }

rest_wakes_example : get_elem? (step (run (start 2 1) idle) (calls 0)).producers 0 ≡ some (some 0)
unfolding run start step idle_count
rest_wakes_example =
    rest_wakes 2 1 0 0 sleeping idle refl refl refl refl (omega arith) refl refl refl

-- Both flags are set and claimed before the second is counted: the count wraps.
abbrev claimed_early : List Move
claimed_early =
    misses 0
    ∷ adds
    ∷ misses 1
    ∷ forces 0
    ∷ forces 1
    ∷ goes 0
    ∷ goes 1
    ∷ goes 1
    ∷ subtracts
    ∷ subtracts
    ∷ []

wrapped : idle_count (run (start 2 2) claimed_early) ≡ 18446744073709551615
unfolding run start step idle_count
wrapped = refl
