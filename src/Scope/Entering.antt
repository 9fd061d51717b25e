-- ===== src/Scope/Entering.antt =====
-- A scope is entered once, and once it has been left it tracks nothing more.
use tonio.Prelude.{
  ℕ, ◌+◌, ◌≢◌, lt→ltb, ◌≤◌, ◌≡◌, refl, Bool, true, false, Option, none, some, List, [], ◌∷◌, arith,
  ltb, Bool-cases, inl, inr, ◌∙◌,
}
use tonio.Scope.{
  Scope, incr, track, spawn, returned, unwound, raised, wrapper, abort_unset, abort_all, exit_new,
  exit_from, exit, cancel, enter, leave, call, Move, entering, leaving, spawning, cancelling,
  calling, ending, step, run,
}

consumed-abort_unset : (c : Bool) (e : ℕ) (s : Scope) → (abort_unset c e s).consumed ≡ s.consumed
unfolding abort_unset
consumed-abort_unset c e s = ground arith

consumed-abort_all : (c : Bool) (es : List ℕ) (s : Scope) → (abort_all c es s).consumed ≡ s.consumed
unfolding abort_all
consumed-abort_all c [] s = refl
consumed-abort_all c (e ∷ es) s =
    consumed-abort_all c es (abort_unset c e s) ∙ consumed-abort_unset c e s

consumed-exit_from : (w : Option (List ℕ)) (s : Scope) → (exit_from w s).1.consumed ≡ s.consumed
unfolding exit_from exit_new
consumed-exit_from (some es) s = refl
consumed-exit_from none s = consumed-abort_all s.cancelled s.stack (record s { stack = [] })

consumed-spawn : (s : Scope) → (spawn s).consumed ≡ s.consumed
unfolding spawn track
consumed-spawn s = elim (Bool-cases (ltb 1 s.consumed)) [ inl h ↦ rw h refl | inr h ↦ rw h refl ]

-- The counter never goes down.
consumed-step : (s : Scope) (m : Move) → s.consumed ≤ (step s m).consumed
unfolding step enter leave incr cancel call exit wrapper
consumed-step s entering = ground arith
consumed-step s leaving = ground arith
consumed-step s spawning = omega (arith, consumed-spawn s)
consumed-step s cancelling = omega arith
consumed-step s calling = omega (arith, consumed-exit_from s.waiter s)
consumed-step s (ending e returned) = omega arith
consumed-step s (ending e unwound) = omega arith
consumed-step s (ending e (raised n)) = omega arith

pub consumed-run : (s : Scope) (ms : List Move) → s.consumed ≤ (run s ms).consumed
unfolding run
consumed-run s [] = omega arith
consumed-run s (m ∷ ms) = omega (arith, consumed-step s m, consumed-run (step s m) ms)

-- compare_exchange succeeds exactly where the counter has the value it asks for.
incr-consumed :
    (from : ℕ) (s : Scope)
    → ((incr from s).0 ≡ true → s.consumed ≡ from)
      × (s.consumed ≢ from → (incr from s).0 ≡ false)
      × (s.consumed ≡ from → (incr from s).1.consumed ≡ from + 1)
unfolding incr
incr-consumed from s = (λ h. ground arith, λ h. ground arith, λ h. ground arith)

-- After an `__enter__` that succeeded, and whatever happens next, `__enter__` raises RuntimeError.
pub enter_once :
    (s : Scope) (ms : List Move) → (enter s).0 ≡ true → (enter (run (enter s).1 ms)).0 ≡ false
unfolding enter
enter_once s ms h =
    let one = (incr-consumed 0 s).2 ((incr-consumed 0 s).0 h) in
    let later = consumed-run (incr 0 s).1 ms in
    (incr-consumed 0 (run (incr 0 s).1 ms)).1 (λ e. omega (arith, one, later, e))

-- Once the block of a scope has been left, `spawn` does nothing, whatever happens in between: the
-- coroutine is neither tracked nor started.
pub spawn_left :
    (s : Scope) (ms : List Move)
    → (enter s).0 ≡ true
    → spawn (run (leave (enter s).1) ms) ≡ run (leave (enter s).1) ms
unfolding enter leave spawn track
spawn_left s ms h =
    let one = (incr-consumed 0 s).2 ((incr-consumed 0 s).0 h) in
    let two = (incr-consumed 1 (incr 0 s).1).2 one in
    let later = consumed-run (incr 1 (incr 0 s).1).1 ms in
    let t : Scope = run (incr 1 (incr 0 s).1).1 ms in
    rw (lt→ltb 1 t.consumed (omega (arith, two, later))) refl
