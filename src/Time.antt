-- ===== src/Time.antt =====
-- Interval and timeout of tonio/_time.py. Times are microseconds of the runtime's clock; the rounding
-- of floats to them is left to the caller.
mod Samples
pub mod Timers
pub mod Ticks
pub mod Expiry
use tonio.Prelude.{
  ℕ, ◌+◌, ◌-◌, Bool, true, false, Option, none, some, List, [], ◌∷◌, leb, ◌==◌, if◌then◌else◌,
}

pub record Interval : Type 0 where
  pub deadline : ℕ
  pub len : ℕ

-- `interval`, where the clock stands at `now`; `at or time()` takes a start of 0 for none.
pub interval : ℕ → Option ℕ → ℕ → Interval
interval period none now = record { deadline = now; len = period }
interval period (some start) now = record {
  deadline = if start == 0 then now else start;
  len = period;
}

-- `_Interval._poll`: the delay, and the next deadline.
pub poll : ℕ → Interval → ℕ × Interval
poll now i =
    if leb i.deadline now
    then (0, record i { deadline = now + i.len })
    else (i.deadline - now, record i { deadline = i.deadline + i.len })

-- `tick` at each of these times: when each wakes, if no timer is late.
pub ticks : List ℕ → Interval → List ℕ
unfolding poll
ticks [] i = []
ticks (now ∷ nows) i = let (delay, i') = poll now i in (now + delay) ∷ ticks nows i'

-- How the coroutine under `timeout` ends; `cancelled` is CancelledError.
pub data End (V E : Type 0) : Type 0 where
  returned : V → End V E
  raised : E → End V E
  cancelled : End V E

-- What `timeout` gives: `(ret, True)`, the coroutine's error, `(None, False)`, or the TypeError from
-- unpacking a result that was never stored.
pub data Answer (V E : Type 0) : Type 0 where
  value : V → Answer V E
  error : E → Answer V E
  timed_out : Answer V E
  type_error : Answer V E

-- `done` is its event, `res` the stored pair, and `unwound` tells of `checkpoint.unwind()`.
pub record Timeout (V E : Type 0) : Type 0 where
  pub done : Bool
  pub res : Option (End V E)
  pub unwound : Bool
  pub answer : Option (Answer V E)

pub data Move (V E : Type 0) : Type 0 where
  -- the wrapper ends
  ends : End V E → Move V E
  -- `done.wait(timeout)` comes back, for the event or the time
  wakes : Move V E

module _ {V E : Type 0} where
  pub started : Timeout V E
  started = record { done = false; res = none; unwound = false; answer = none }

  -- The handlers of `wrapper`.
  pub stored : End V E → Option (End V E)
  stored (returned v) = some (returned v)
  stored (raised e) = some (raised e)
  stored cancelled = none

  -- `is_err, ret = res.fetch()` and what follows.
  pub unpack : Option (End V E) → Answer V E
  unpack none = type_error
  unpack (some (returned v)) = value v
  unpack (some (raised e)) = error e
  unpack (some cancelled) = type_error

  -- Behind the wait.
  pub settle : Timeout V E → Timeout V E
  unfolding unpack
  settle t =
      if t.done
      then record t { answer = some (unpack t.res) }
      else record t { unwound = true; answer = some timed_out }

  -- The wrapper ends once, and the wait comes back once.
  pub step : Timeout V E → Move V E → Timeout V E
  unfolding stored settle
  step t (ends x) = if t.done then t else record t { done = true; res = stored x }
  step t wakes = elim t.answer [ none ↦ settle t | some a ↦ t ]

  pub run : Timeout V E → List (Move V E) → Timeout V E
  unfolding step
  run t [] = t
  run t (m ∷ ms) = run (step t m) ms
