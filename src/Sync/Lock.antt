-- ===== src/Sync/Lock.antt =====
-- Lock of tonio/_sync.py over Lock of src/sync.rs. Each of `acquire`, `try_acquire`, `release` and
-- `Event::set` is one step: it takes effect at one compare-exchange or under one mutex.
mod Samples
pub mod Exclusion
pub mod Mutex
use tonio.Prelude.{
  ℕ, ◌+◌, Bool, true, false, not, Option, none, some, List, [], ◌∷◌, ◌++◌, get_elem?, set,
  replicate, if◌then◌else◌,
}
use tonio.Sync.Waiters.{
  Events, no_events, new_event, set_event, drain, Phase, idle, holding, waiting, Move, call,
  attempt, wake, cancel, leave,
}

pub record Lock : Type 0 where
  pub state : Bool
  pub waiters : List ℕ

pub new : Lock
new = record { state = false; waiters = [] }

-- `none` is the free lock taken; otherwise the event to wait on.
unfoldable pub acquire : Lock → Events → Option ℕ × Lock × Events
acquire l es =
    if l.state
    then (some es.made, record l { waiters = l.waiters ++ es.made ∷ [] }, new_event es)
    else (none, record l { state = true }, es)

-- `none` is WouldBlock.
unfoldable pub try_acquire : Lock → Option Lock
try_acquire l = if l.state then none else some (record l { state = true })

unfoldable pub release : Lock → Events → Lock × Events
unfolding drain
release l es =
    let d = drain l.waiters es in
    (record { state = if d.handed then l.state else false; waiters = d.queue }, d.events)

-- _LockImpl.or_raise; the phase is that of the caller, who enters the context at once.
or_raise : Lock → Phase × Lock
unfolding try_acquire
or_raise l = elim (try_acquire l) [ none ↦ (idle, l) | some l' ↦ (holding, l') ]

-- No event is the lock at once; otherwise the task waits.
abbrev entered : Option ℕ → Phase
entered none = holding
entered (some e) = waiting e

-- Lock.__call__ up to its first suspension.
call_lock : Lock → Events → Phase × Lock × Events
unfolding acquire
call_lock l es = let (event, l', es') = acquire l es in (entered event, l', es')

-- Its `except _CancelledError`: `if not event.set(): self.release()`.
pub abandon : ℕ → Lock → Events → Lock × Events
unfolding set_event release
abandon e l es = let (fresh, es') = set_event e es in if fresh then (l, es') else release l es'

-- A lock, the events, and the tasks that use it.
pub record System : Type 0 where
  pub lock : Lock
  pub events : Events
  pub tasks : List Phase

pub start : ℕ → System
unfolding new
start n = record { lock = new; events = no_events; tasks = replicate n idle }

-- One move of task `i`, which stands in the given phase; a move that it cannot make changes nothing.
pub step_from : Option Phase → Move → ℕ → System → System
unfolding call_lock or_raise abandon release
step_from (some idle) call i s =
    let (p, l, es) = call_lock s.lock s.events in
    record { lock = l; events = es; tasks = set s.tasks i p }
step_from (some idle) attempt i s =
    let (p, l) = or_raise s.lock in record s { lock = l; tasks = set s.tasks i p }
step_from (some (waiting e)) wake i s =
    if s.events.flag e then record s { tasks = set s.tasks i holding } else s
step_from (some (waiting e)) cancel i s =
    let (l, es) = abandon e s.lock s.events in
    record { lock = l; events = es; tasks = set s.tasks i idle }
step_from (some holding) leave i s =
    let (l, es) = release s.lock s.events in
    record { lock = l; events = es; tasks = set s.tasks i idle }
step_from _ m i s = s

pub step : System → ℕ × Move → System
unfolding step_from
step s (i, m) = step_from (get_elem? s.tasks i) m i s

-- Any interleaving of the tasks' moves.
pub run : System → List (ℕ × Move) → System
unfolding step
run s [] = s
run s (m ∷ ms) = run (step s m) ms
