-- ===== src/Ctl/Spawn.antt =====
-- `spawn` and `map` of tonio/_ctl.py, over Barrier of src/sync.rs and Result
-- of src/events.rs. The wrappers finish in any order, and the joining task arrives at any time.
mod Samples
pub mod Slots
pub mod Join
use tonio.Prelude.{
  ℕ, suc, ◌+◌, Bool, true, false, Option, none, some, List, [], ◌∷◌, ◌++◌, set, get_elem?, length,
  replicate, leb, if◌then◌else◌,
}

-- Barrier; `event` is the flag of its event.
pub record Barrier : Type 0 where
  pub value : ℕ
  pub count : ℕ
  pub event : Bool

pub new_barrier : ℕ → Barrier
new_barrier value = record { value = value; count = 0; event = false }

-- The count before this call, and the event set by the call that completes it.
unfoldable pub ack : Barrier → ℕ × Barrier
ack b = (
  b.count,
  record b { count = b.count + 1; event = if leb b.value (b.count + 1) then true else b.event },
)

-- How a coroutine ends: a value, an Exception, or a BaseException that `except Exception` lets by.
pub data Outcome (V E : Type 0) : Type 0 where
  returned : V → Outcome V E
  raised : E → Outcome V E
  escaped : Outcome V E

-- What `Result.fetch` gives: the one slot of a holder of size 1, otherwise the list of the slots. An
-- empty slot is Python's None.
pub data Fetched (V : Type 0) : Type 0 where
  single : Option V → Fetched V
  many : List (Option V) → Fetched V

-- How `join` ends.
pub data Joined (V E : Type 0) : Type 0 where
  pending : Joined V E
  group : List E → Joined V E
  done : Fetched V → Joined V E

pub record Spawned (V E : Type 0) : Type 0 where
  pub barrier : Barrier
  pub res : List (Option V)
  pub errs : List E

pub data Move : Type 0 where
  -- the wrapper of coroutine `i` ends
  finish : ℕ → Move
  -- `join` reaches `barrier.wait()`
  arrive : Move

module _ {V : Type 0} where
  unfoldable pub fetch : List (Option V) → Fetched V
  fetch (x ∷ []) = single x
  fetch [] = many []
  fetch (x ∷ y ∷ r) = many (x ∷ y ∷ r)

  -- `map`: a list, also of a single result.
  unfoldable pub map_results : Fetched V → List (Option V)
  map_results (single x) = x ∷ []
  map_results (many xs) = xs

module _ {V E : Type 0} where
  unfoldable pub spawned : ℕ → Spawned V E
  unfolding new_barrier
  spawned n = record { barrier = new_barrier (n + 1); res = replicate n none; errs = [] }

  -- The `try` of the wrapper: store, append, or neither.
  unfoldable pub record_outcome : ℕ → Option (Outcome V E) → Spawned V E → Spawned V E
  record_outcome i (some (returned v)) s = record s { res = set s.res i (some v) }
  record_outcome i (some (raised e)) s = record s { errs = s.errs ++ e ∷ [] }
  record_outcome i (some escaped) s = s
  record_outcome i none s = s

  -- Its `finally: barrier.ack()`, on every way out.
  unfoldable pub acked : Spawned V E → Spawned V E
  unfolding ack
  acked s = record s { barrier = (ack s.barrier).1 }

  -- One move, where coroutine `i` ends as the list says.
  unfoldable pub step : List (Outcome V E) → Spawned V E → Move → Spawned V E
  unfolding record_outcome acked
  step outs s (finish i) = acked (record_outcome i (get_elem? outs i) s)
  step outs s arrive = acked s

  unfoldable pub run : List (Outcome V E) → Spawned V E → List Move → Spawned V E
  unfolding step
  run outs s [] = s
  run outs s (m ∷ ms) = run outs (step outs s m) ms

  unfoldable pub or_group : List E → Fetched V → Joined V E
  or_group [] r = done r
  or_group (e ∷ es) r = group (e ∷ es)

  -- `join` behind its wait: the group of errors, or the results.
  unfoldable pub join : Spawned V E → Joined V E
  unfolding or_group fetch
  join s = if s.barrier.event then or_group s.errs (fetch s.res) else pending
