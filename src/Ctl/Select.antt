-- ===== src/Ctl/Select.antt =====
-- `select` of tonio/_ctl.py, over Scope. The coroutines end in any order, each in two parts: its result
-- and the sentinel, and later its event in the scope. The caller goes on when it is resumed after the
-- sentinel is set, which may be in between, and after more than one has ended.
mod Samples
pub mod Opening
pub mod Awaited
pub mod Choosing
use tonio.Prelude.{
  ℕ, zero, suc, Bool, true, false, Option, none, some, List, [], ◌∷◌, get_elem?, length,
  if◌then◌else◌,
}
use tonio.Scope.{Scope, new, spawn, enter, leave, cancel, call, End, wrapper}
use tonio.Ctl.Spawn.{Outcome}
use tonio.Ctl.Spawn as Spawn

-- What is stored: `(False, ret)` or `(True, exc)`.
pub data Stored (V E : Type 0) : Type 0 where
  value : V → Stored V E
  error : E → Stored V E

-- How `select` ends: `mismatch` is the TypeError of unpacking the None that nobody has replaced.
pub data Selected (V E : Type 0) : Type 0 where
  pending mismatch : Selected V E
  gives : V → Selected V E
  raises : E → Selected V E

pub record Select (V E : Type 0) : Type 0 where
  pub scope : Scope
  pub sentinel : Bool
  pub res : Option (Stored V E)

-- The parts in which a coroutine ends: the `finally` of select's wrapper, and that of the scope's.
pub data Hop : Type 0 where
  stores closes : ℕ → Hop

pub spawn_all : ℕ → Scope → Scope
spawn_all zero s = s
spawn_all (suc n) s = spawn_all n (spawn s)

module _ {V E : Type 0} where
  pub started : ℕ → Select V E
  unfolding spawn_all
  started n = record { scope = spawn_all n (enter new).1; sentinel = false; res = none }

  -- The `try` of `wrapper`.
  pub store : Option (Outcome V E) → Option (Stored V E) → Option (Stored V E)
  store (some (Spawn.returned v)) old = some (value v)
  store (some (Spawn.raised e)) old = some (error e)
  store (some Spawn.escaped) old = old
  store none old = old

  -- How `wrapper` ends for the scope: it raises only what is no Exception, here CancelledError.
  pub wrapper_end : Option (Outcome V E) → End
  wrapper_end (some (Spawn.returned v)) = End.returned
  wrapper_end (some (Spawn.raised e)) = End.returned
  wrapper_end (some Spawn.escaped) = End.unwound
  wrapper_end none = End.returned

  pub finish : List (Outcome V E) → Select V E → Hop → Select V E
  unfolding store wrapper_end
  finish outs s (stores i) = record s { sentinel = true; res = store (get_elem? outs i) s.res }
  finish outs s (closes i) = record s {
    scope = (wrapper (wrapper_end (get_elem? outs i)) i s.scope).1;
  }

  pub run : List (Outcome V E) → Select V E → List Hop → Select V E
  unfolding finish
  run outs s [] = s
  run outs s (h ∷ hs) = run outs (finish outs s h) hs

  pub unpack : Option (Stored V E) → Selected V E
  unpack none = mismatch
  unpack (some (value v)) = gives v
  unpack (some (error e)) = raises e

  -- Behind the wait for the sentinel: cancel, leave the block, fetch, and close the scope, whose
  -- waiter is the second component; the TypeError of unpacking None comes before the scope is closed.
  pub settle : Option (Stored V E) → Scope → Selected V E × (Option (List ℕ) × Scope)
  unfolding unpack
  settle none s = (mismatch, (none, leave (cancel s).1))
  settle (some r) s = (unpack (some r), call (leave (cancel s).1))

  -- The parts that are done when the caller is resumed are `hs`, in this order.
  unfoldable pub select : List (Outcome V E) → List Hop → Selected V E × (Option (List ℕ) × Scope)
  unfolding started run settle
  select outs hs =
      let s = run outs (started (length outs)) hs in
      if s.sentinel then settle s.res s.scope else (pending, (none, s.scope))
