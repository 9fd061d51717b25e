-- ===== src/Sync/Waiters.antt =====
-- What Lock and Semaphore share: events (src/events.rs), the queue of waiting events that
-- `release` drains (src/sync.rs), and the tasks that run `__call__` of tonio/_sync.py.
pub mod Counts
pub mod Steps
use tonio.Prelude.{
  ℕ, suc, ◌+◌, Bool, true, false, List, [], ◌∷◌, update, ◌==◌, one_if, if◌then◌else◌,
}

-- The flags of the events, and the number of events made so far; an event is its number.
pub record Events : Type 0 where
  pub flag : ℕ → Bool
  pub made : ℕ

abbrev pub no_events : Events
no_events = record { flag = λ _. false; made = 0 }

-- Event::new
unfoldable pub new_event : Events → Events
new_event es = record { flag = update es.flag es.made false; made = suc es.made }

-- Event::set: compare_exchange(false, true), and whether it succeeded.
unfoldable pub set_event : ℕ → Events → Bool × Events
set_event e es =
    if es.flag e then (false, es) else (true, record es { flag = update es.flag e true })

-- What `while let Some(event) = pop_front()` of `release` leaves: whether an event could be set.
pub record Drained : Type 0 where
  pub handed : Bool
  pub queue : List ℕ
  pub events : Events

unfoldable pub drain : List ℕ → Events → Drained
unfolding set_event
drain [] es = record { handed = false; queue = []; events = es }
drain (e ∷ q) es =
    if es.flag e
    then drain q es
    else record { handed = true; queue = q; events = (set_event e es).1 }

-- Where a task stands in `__call__` and the `with` block behind it.
pub data Phase : Type 0 where
  idle holding : Phase
  waiting : ℕ → Phase

-- A task owns the resource inside the block, and from the moment that its event is set.
unfoldable pub owns : (ℕ → Bool) → Phase → ℕ
owns f idle = 0
owns f holding = 1
owns f (waiting e) = one_if (f e)

unfoldable pub waits : ℕ → Phase → ℕ
waits e idle = 0
waits e holding = 0
waits e (waiting d) = one_if (d == e)

unfoldable pub holds : Phase → ℕ
holds idle = 0
holds holding = 1
holds (waiting e) = 0

-- The steps that a task can take.
pub data Move : Type 0 where
  -- `acquire`, at the head of `__call__`
  call : Move
  -- `or_raise`
  attempt : Move
  -- the waiter of a set event resumes the task
  wake : Move
  -- CancelledError is thrown in at the waiter
  cancel : Move
  -- the `with` block ends
  leave : Move
