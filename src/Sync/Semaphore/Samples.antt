-- ===== src/Sync/Semaphore/Samples.antt =====
-- A run of a semaphore of one token with three tasks.
use tonio.Prelude.{ℕ, ◌+◌, ◌≤◌, ◌≡◌, ◌⊎◌, refl, List, [], ◌∷◌, ◌++◌, total, arith}
use tonio.Sync.Waiters.{new_event, idle, holding, owns, holds, Move, call, wake, cancel, leave}
use tonio.Sync.Semaphore.{none_left, start, run}
use tonio.Sync.Semaphore.Permits.{run_conserves}

-- Task 0 takes the token, 1 and 2 wait.
abbrev contended : List (ℕ × Move)
contended = (0, call) ∷ (1, call) ∷ (2, call) ∷ []

-- The token goes to task 1, which is cancelled before it runs, and so to task 2.
abbrev passed_on : List (ℕ × Move)
passed_on = contended ++ (0, leave) ∷ (1, cancel) ∷ []

token_kept : (run (start 1 3) (passed_on ++ (2, wake) ∷ [])).tasks ≡ idle ∷ idle ∷ holding ∷ []
unfolding run start new_event none_left
token_kept = refl

run_conserves_example :
    let s = run (start 1 3) passed_on in
    (s.semaphore.tokens + total (owns s.events.flag) s.tasks ≡ 1)
    × (total holds s.tasks ≤ 1)
    × ((s.semaphore.tokens ≡ 0) ⊎ (s.semaphore.waiters ≡ []))
run_conserves_example = run_conserves 1 3 passed_on (omega arith) (omega arith)
