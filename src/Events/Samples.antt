-- ===== src/Events/Samples.antt =====
-- Two coroutines that wait, one for two events, and a `set`.
use tonio.Prelude.{◌≡◌, refl, List, [], ◌∷◌, arith, count}
use tonio.Events.{
  new, strike, wake, wake_all, resume_from, decrement, notify_from, add_waker, register,
  build_sentinel, Move, sets, notifies, waiters, registers, resumes, step, run,
}
use tonio.Events.Waking.{set_wakes}

abbrev moves : List Move
moves = waiters ∷ registers 1 ∷ registers 2 ∷ sets ∷ notifies ∷ resumes 1 ∷ resumes 0 ∷ []

both_resumed : (run new moves).handles ≡ 0 ∷ 1 ∷ []
unfolding run new step register add_waker build_sentinel notify_from wake_all wake strike
    resume_from decrement
both_resumed = refl

set_wakes_example : count 0 (run new moves).handles ≡ 1
unfolding run new step register add_waker build_sentinel notify_from wake_all wake strike
    resume_from decrement
set_wakes_example = set_wakes moves 0 (omega arith) refl refl refl
