-- ===== src/Colored/Spawn.antt =====
-- `spawn` of tonio/_colored/_ctl.py: what it returns, a _SpawnJoinCollect, is an object that can be
-- awaited by any number of tasks.
mod Samples
pub mod Awaiting
use tonio.Prelude.{
  ℕ, Bool, true, false, Option, none, some, List, [], ◌∷◌, ◌++◌, set, get_elem?, if◌then◌else◌,
}
use tonio.Ctl.Spawn.{
  Outcome, returned, raised, escaped, Joined, pending, Spawned, spawned, ack, fetch, or_group,
}

pub data Move : Type 0 where
  -- the wrapper of coroutine `i` ends
  ends : ℕ → Move
  -- a task awaits the object
  awaits : Move

module _ {V E : Type 0} where
  pub acked : Spawned V E → Spawned V E
  unfolding ack
  acked s = record s { barrier = (ack s.barrier).1 }

  -- `wrapper`, whose coroutine has ended.
  pub wrapper : ℕ → Option (Outcome V E) → Spawned V E → Spawned V E
  unfolding acked
  wrapper i (some (returned v)) s = acked (record s { res = set s.res i (some v) })
  wrapper i (some (raised e)) s = acked (record s { errs = s.errs ++ e ∷ [] })
  wrapper i (some escaped) s = acked s
  wrapper i none s = acked s

  -- Each `_wait` begins with `self._barrier.wait()`.
  pub step : List (Outcome V E) → Spawned V E → Move → Spawned V E
  unfolding wrapper acked
  step outs s (ends i) = wrapper i (get_elem? outs i) s
  step outs s awaits = acked s

  unfoldable pub run : List (Outcome V E) → Spawned V E → List Move → Spawned V E
  unfolding step
  run outs s [] = s
  run outs s (m ∷ ms) = run outs (step outs s m) ms

  -- What a `_wait` gives or raises, once the barrier's event is set.
  unfoldable pub result : Spawned V E → Joined V E
  unfolding or_group fetch
  result s = if s.barrier.event then or_group s.errs (fetch s.res) else pending
