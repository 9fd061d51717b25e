-- ===== src/Colored/Completed.antt =====
-- `as_completed` of tonio/_colored/_ctl.py: an async generator, which awaits each loader itself. The
-- wrappers and the targets are those of Ctl.Completed.
pub mod Yielding
use tonio.Prelude.{ℕ, Bool, true, false, Option, List, [], ◌∷◌, if◌then◌else◌}
use tonio.Ctl.Spawn.{Outcome}
use tonio.Ctl.Completed.{Target, Completed, started}
use tonio.Ctl.Completed as Completed

module _ {V : Type 0} where
  -- What `async for` is given before it waits: the targets in order, up to the first that is not set.
  pub yielded : List (Target V) → List (Option V)
  yielded [] = []
  yielded (t ∷ ts) = let rest = yielded ts in if t.event then t.res ∷ rest else []

module _ {V E : Type 0} where
  -- `as_completed` of `n` coroutines, of which those of the list have ended, in this order.
  unfoldable pub as_completed : ℕ → List (Outcome V E) → List (Option V)
  unfolding yielded
  as_completed n outs = yielded (Completed.run outs (started n)).targets
