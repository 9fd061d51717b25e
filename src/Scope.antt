-- ===== src/Scope.antt =====
-- `Scope` of tonio/_scope.py, over PyGenScope of src/scope.rs. A tracked task is the number of its
-- event, which also stands for the waiter that suspends it at the start.
mod Samples
pub mod Aborting
pub mod Entering
pub mod Aborts
use tonio.Prelude.{
  ℕ, suc, ◌+◌, Bool, true, false, not, ◌&&◌, Option, none, some, List, [], ◌∷◌, ◌++◌, ltb, ◌==◌,
  if◌then◌else◌,
}
use tonio.Sync.Waiters.{Events, no_events, new_event, set_event}

-- `waiter` is what `_exit` has given, as the events it waits on; `aborted` has the waiters that
-- `abort_pygen` was called on, and `started` the coroutines that the runtime was given, in order.
pub record Scope : Type 0 where
  pub stack : List ℕ
  pub waiter : Option (List ℕ)
  pub consumed : ℕ
  pub cancelled : Bool
  pub events : Events
  pub aborted : List ℕ
  pub started : List ℕ

unfoldable pub new : Scope
new = record {
  stack = [];
  waiter = none;
  consumed = 0;
  cancelled = false;
  events = no_events;
  aborted = [];
  started = [];
}

-- compare_exchange(from, from + 1), and whether it succeeded.
unfoldable pub incr : ℕ → Scope → Bool × Scope
incr from s = if s.consumed == from then (true, record s { consumed = from + 1 }) else (false, s)

-- The event of the new task, or None for a scope that has been left.
unfoldable pub track : Scope → Option ℕ × Scope
unfolding new_event
track s = if ltb 1 s.consumed then (none, s) else (
  some s.events.made,
  record s { events = new_event s.events; stack = s.stack ++ s.events.made ∷ [] },
)

abbrev started_with : Option ℕ → Scope → Scope
started_with none s = s
started_with (some e) s = record s { started = s.started ++ e ∷ [] }

-- `if wrapped_coro := self._track(wrapper)`: what is tracked is also started.
unfoldable pub spawn : Scope → Scope
unfolding track
spawn s = started_with (track s).0 (track s).1

-- How the coroutine in `wrapper` ends.
pub data End : Type 0 where
  returned unwound : End
  raised : ℕ → End

-- What `wrapper` raises: everything but CancelledError; its event is set on every way out.
unfoldable pub wrapper : End → ℕ → Scope → Option ℕ × Scope
unfolding set_event
wrapper returned e s = (none, record s { events = (set_event e s.events).1 })
wrapper unwound e s = (none, record s { events = (set_event e s.events).1 })
wrapper (raised n) e s = (some n, record s { events = (set_event e s.events).1 })

-- The body of the loop of `_exit`.
pub abort_unset : Bool → ℕ → Scope → Scope
unfolding set_event
abort_unset cancelled e s =
    if cancelled && not (s.events.flag e)
    then record s { events = (set_event e s.events).1; aborted = s.aborted ++ e ∷ [] }
    else s

pub abort_all : Bool → List ℕ → Scope → Scope
unfolding abort_unset
abort_all cancelled [] s = s
abort_all cancelled (e ∷ es) s = abort_all cancelled es (abort_unset cancelled e s)

exit_new : Scope → List ℕ × Scope
unfolding abort_all
exit_new s = (
  s.stack,
  record (abort_all s.cancelled s.stack (record s { stack = [] })) { waiter = some s.stack },
)

pub exit_from : Option (List ℕ) → Scope → Option (List ℕ) × Scope
unfolding exit_new
exit_from (some es) s = (none, s)
exit_from none s = (some (exit_new s).0, (exit_new s).1)

-- The events of the new waiter, or nothing for the RuntimeError 'Scope already consumed'.
unfoldable pub exit : Scope → Option (List ℕ) × Scope
unfolding exit_from
exit s = exit_from s.waiter s

unfoldable pub cancel : Scope → Bool × Scope
cancel s = (not s.cancelled, record s { cancelled = true })

-- Whether `__enter__` raises nothing.
unfoldable pub enter : Scope → Bool × Scope
unfolding incr
enter = incr 0

-- `__exit__`, on every way out of the block.
unfoldable pub leave : Scope → Scope
unfolding incr
leave s = (incr 1 s).1

-- `__call__`: the events that the caller then waits for.
unfoldable pub call : Scope → Option (List ℕ) × Scope
unfolding exit
call = exit

-- What can happen to a scope.
pub data Move : Type 0 where
  entering leaving spawning cancelling calling : Move
  -- the coroutine of a task ends
  ending : ℕ → End → Move

unfoldable pub step : Scope → Move → Scope
unfolding enter leave spawn cancel call wrapper
step s entering = (enter s).1
step s leaving = leave s
step s spawning = spawn s
step s cancelling = (cancel s).1
step s calling = (call s).1
step s (ending e r) = (wrapper r e s).1

unfoldable pub run : Scope → List Move → Scope
unfolding step
run s [] = s
run s (m ∷ ms) = run (step s m) ms
