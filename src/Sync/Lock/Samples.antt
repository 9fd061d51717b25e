-- ===== src/Sync/Lock/Samples.antt =====
-- A run of the lock with three tasks.
use tonio.Prelude.{
  ℕ, ◌≤◌, ◌≡◌, refl, List, [], ◌∷◌, ◌++◌, total, if◌then◌else◌, ◌||◌, ◌==◌, some, none,
}
use tonio.Sync.Waiters.{new_event, idle, holding, holds, Move, call, wake, cancel, leave}
use tonio.Sync.Lock.{acquire, release, abandon, start, run}
use tonio.Sync.Lock.Mutex.{view, take_or_queue, give_back, withdraw, is_first, lock_refines}
use tonio.Sync.Lock.Exclusion.{run_exclusive}

-- Task 0 takes the lock, 1 and 2 wait.
abbrev contended : List (ℕ × Move)
contended = (0, call) ∷ (1, call) ∷ (2, call) ∷ []

-- Task 1 is cancelled, and 0 leaves.
abbrev left : List (ℕ × Move)
left = contended ++ (1, cancel) ∷ (0, leave) ∷ []

-- The hand-over passes over the cancelled task.
handed_over : (run (start 3) (left ++ (2, wake) ∷ [])).tasks ≡ idle ∷ idle ∷ holding ∷ []
unfolding run start new_event
handed_over = refl

run_exclusive_example : total holds (run (start 3) left).tasks ≤ 1
run_exclusive_example = run_exclusive 3 left

lock_refines_example :
    let s = run (start 3) contended in
    let m = view s.lock s.events in
    (let (o, l, es) = acquire s.lock s.events in
      (o ≡ (if m.taken then some s.events.made else none))
      × (view l es ≡ take_or_queue s.events.made m))
    × (let (l, es) = release s.lock s.events in
        (view l es ≡ give_back m) × (es.flag 1 ≡ (s.events.flag 1 || is_first 1 m.queue)))
    × (let (l, es) = abandon 1 s.lock s.events in
        (view l es ≡ (if s.events.flag 1 then give_back m else withdraw 1 m))
        × (es.flag 1
            ≡ (s.events.flag 1 || (if s.events.flag 1 then is_first 1 m.queue else 1 == 1))))
lock_refines_example = lock_refines 3 contended 1 1
