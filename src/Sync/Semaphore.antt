-- ===== src/Sync/Semaphore.antt =====
-- Semaphore of tonio/_sync.py over Semaphore of src/sync.rs. Every operation holds the state's mutex
-- throughout, so each is one step. Both counts are cast to i32 for the test, with its wrap-around.
mod Samples
pub mod Permits
use tonio.Prelude.{
  ℕ, suc, ◌+◌, ◌-◌, ◌%◌, ◌||◌, ◌==◌, Bool, Option, none, some, List, [], ◌∷◌, ◌++◌, get_elem?, set,
  replicate, length, leb, if◌then◌else◌,
}
use tonio.Sync.Waiters.{
  Events, no_events, new_event, set_event, drain, Phase, idle, holding, waiting, Move, call,
  attempt, wake, cancel, leave,
}

pub record Semaphore : Type 0 where
  pub tokens : ℕ
  pub waiters : List ℕ

-- `state.0 as i32 - len as i32 <= 0`: the difference of 32 bits is zero, or has the sign bit.
unfoldable pub none_left : ℕ → ℕ → Bool
none_left a b =
    let value = (a % 4294967296 + (4294967296 - b % 4294967296)) % 4294967296 in
    value == 0 || leb 2147483648 value

pub new : ℕ → Semaphore
new value = record { tokens = value; waiters = [] }

-- `none` is a token taken; otherwise the event to wait on.
unfoldable pub acquire : Semaphore → Events → Option ℕ × Semaphore × Events
unfolding none_left
acquire l es =
    if none_left l.tokens (length l.waiters)
    then (some es.made, record l { waiters = l.waiters ++ es.made ∷ [] }, new_event es)
    else (none, record l { tokens = l.tokens - 1 }, es)

-- `none` is WouldBlock.
unfoldable pub try_acquire : Semaphore → Option Semaphore
unfolding none_left
try_acquire l =
    if none_left l.tokens (length l.waiters)
    then none
    else some (record l { tokens = l.tokens - 1 })

unfoldable pub release : Semaphore → Events → Semaphore × Events
unfolding drain
release l es =
    let d = drain l.waiters es in
    (record { tokens = if d.handed then l.tokens else suc l.tokens; waiters = d.queue }, d.events)

-- _SemaphoreImpl.or_raise; the phase is that of the caller, who enters the context at once.
or_raise : Semaphore → Phase × Semaphore
unfolding try_acquire
or_raise l = elim (try_acquire l) [ none ↦ (idle, l) | some l' ↦ (holding, l') ]

-- No event is a token at once; otherwise the task waits.
abbrev entered : Option ℕ → Phase
entered none = holding
entered (some e) = waiting e

-- Semaphore.__call__ up to its first suspension.
call_semaphore : Semaphore → Events → Phase × Semaphore × Events
unfolding acquire
call_semaphore l es = let (event, l', es') = acquire l es in (entered event, l', es')

-- Its `except _CancelledError`: `if not event.set(): self.release()`.
abandon : ℕ → Semaphore → Events → Semaphore × Events
unfolding set_event release
abandon e l es = let (fresh, es') = set_event e es in if fresh then (l, es') else release l es'

-- A semaphore, the events, and the tasks that use it.
pub record System : Type 0 where
  pub semaphore : Semaphore
  pub events : Events
  pub tasks : List Phase

-- `n` tokens and `k` idle tasks.
pub start : ℕ → ℕ → System
unfolding new
start n k = record { semaphore = new n; events = no_events; tasks = replicate k idle }

-- One move of task `i`, which stands in the given phase; a move that it cannot make changes nothing.
pub step_from : Option Phase → Move → ℕ → System → System
unfolding call_semaphore or_raise abandon release
step_from (some idle) call i s =
    let (p, l, es) = call_semaphore s.semaphore s.events in
    record { semaphore = l; events = es; tasks = set s.tasks i p }
step_from (some idle) attempt i s =
    let (p, l) = or_raise s.semaphore in record s { semaphore = l; tasks = set s.tasks i p }
step_from (some (waiting e)) wake i s =
    if s.events.flag e then record s { tasks = set s.tasks i holding } else s
step_from (some (waiting e)) cancel i s =
    let (l, es) = abandon e s.semaphore s.events in
    record { semaphore = l; events = es; tasks = set s.tasks i idle }
step_from (some holding) leave i s =
    let (l, es) = release s.semaphore s.events in
    record { semaphore = l; events = es; tasks = set s.tasks i idle }
step_from _ m i s = s

pub step : System → ℕ × Move → System
unfolding step_from
step s (i, m) = step_from (get_elem? s.tasks i) m i s

-- Any interleaving of the tasks' moves.
pub run : System → List (ℕ × Move) → System
unfolding step
run s [] = s
run s (m ∷ ms) = run (step s m) ms
