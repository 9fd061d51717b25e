-- ===== src/Ctl/Joining.antt =====
-- `spawn.without_results` and `block_on` of tonio/_ctl.py.
mod Samples
pub mod Agreement
use tonio.Prelude.{
  ℕ, ◌+◌, Bool, true, false, Option, none, some, List, [], ◌∷◌, ◌++◌, get_elem?, if◌then◌else◌,
}
use tonio.Ctl.Spawn.{
  Outcome, returned, raised, escaped, Barrier, new_barrier, ack, Move, finish, arrive,
}
use tonio.Ctl.Select.{Stored, value, error, Selected, pending}
use tonio.Ctl.Select as Select

-- What the tasks of `without_results` share.
pub record Tracked (E : Type 0) : Type 0 where
  pub barrier : Barrier
  pub errs : List E

-- How its `join` ends.
pub data Joined (E : Type 0) : Type 0 where
  waiting finished : Joined E
  group : List E → Joined E

module _ {E : Type 0} where
  unfoldable pub tracked : ℕ → Tracked E
  tracked n = record { barrier = new_barrier (n + 1); errs = [] }

  pub acked : Tracked E → Tracked E
  acked s = record s { barrier = (ack s.barrier).1 }

  pub or_group : List E → Joined E
  or_group [] = finished
  or_group (e ∷ es) = group (e ∷ es)

  unfoldable pub join : Tracked E → Joined E
  unfolding or_group
  join s = if s.barrier.event then or_group s.errs else waiting

module _ {V E : Type 0} where
  -- The `try` of the wrapper, whose result is not kept.
  pub record_error : Option (Outcome V E) → Tracked E → Tracked E
  record_error (some (raised e)) s = record s { errs = s.errs ++ e ∷ [] }
  record_error (some (returned v)) s = s
  record_error (some escaped) s = s
  record_error none s = s

  pub step : List (Outcome V E) → Tracked E → Move → Tracked E
  unfolding record_error acked
  step outs s (finish i) = acked (record_error (get_elem? outs i) s)
  step outs s arrive = acked s

  unfoldable pub run : List (Outcome V E) → Tracked E → List Move → Tracked E
  unfolding step
  run outs s [] = s
  run outs s (m ∷ ms) = run outs (step outs s m) ms

  -- `wrapper` of `block_on`: what is stored when the coroutine ends.
  pub outcome : Outcome V E → Option (Stored V E)
  outcome (returned v) = some (value v)
  outcome (raised e) = some (error e)
  outcome escaped = none

  -- The thread waits until the coroutine has ended.
  unfoldable pub block_on : Option (Outcome V E) → Selected V E
  unfolding outcome
  block_on none = pending
  block_on (some o) = Select.unpack (outcome o)
