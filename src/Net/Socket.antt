-- ===== src/Net/Socket.antt =====
-- The suspending methods of `_Socket` in tonio/_net/_socket.py, as machines that the kernel and the
-- poller drive: each answers the system calls that the code makes, or reports readiness.
mod Samples
pub mod Calls
pub mod Connect
pub mod Handle
pub mod Loop
pub mod Waking
use tonio.Prelude.{
  ℕ, suc, Bool, true, false, Option, none, some, List, [], ◌∷◌, ◌++◌, ◌==◌, if◌then◌else◌,
}
use tonio.Io.{Ready, Direction, reading, writing, ScheduledIo, arm, clear, edge, shutdown, woken}

-- How a non-blocking system call ends; BlockingIOError and InterruptedError have cases of their own.
pub data Answer (R : Type 0) : Type 0 where
  returns : R → Answer R
  interrupted : Answer R
  would_block : Answer R
  fails : ℕ → Answer R

-- Where the coroutine stands.
pub data Phase (R : Type 0) : Type 0 where
  -- in the system call, before the loop and with nothing armed
  first : Phase R
  -- in the system call, inside the loop
  calling : Phase R
  -- suspended on the event in the slot
  parked : ℕ → Phase R
  finished : R → Phase R
  raised : ℕ → Phase R

-- `asked` has the kernel's answers so far, the oldest first.
pub record Task (R : Type 0) : Type 0 where
  pub io : ScheduledIo
  pub phase : Phase R
  pub asked : List (Answer R)

pub data Move (R : Type 0) : Type 0 where
  answer : Answer R → Move R
  report : Ready → Move R
  -- `_io_close`, by another task
  deregister : Move R
  -- other tasks arm and clear a direction of the descriptor; an arm puts its event in the slot, whatever
  -- stands there
  arms clears : Direction → Move R

module _ {R : Type 0} where
  abbrev armed : Option ℕ → Phase R
  armed none = calling
  armed (some e) = parked e

  -- The head of the `while True`: arm the direction, and park or make the call.
  unfoldable pub enter : Direction → ScheduledIo → List (Answer R) → Task R
  enter d io asked =
      let (event, io') = arm d io in record { io = io'; phase = armed event; asked = asked }

  -- An answer inside the loop: its three handlers and its `else`.
  unfoldable pub answered : Direction → Answer R → Task R → Task R
  unfolding enter
  answered d (returns v) t = record t { phase = finished v; asked = t.asked ++ returns v ∷ [] }
  answered d interrupted t = enter d t.io (t.asked ++ interrupted ∷ [])
  answered d would_block t = enter d (clear d t.io) (t.asked ++ would_block ∷ [])
  answered d (fails e) t = record t { phase = raised e; asked = t.asked ++ fails e ∷ [] }

  -- An answer to the call before the loop, whose `except` clears nothing.
  unfoldable pub answered_first : Direction → Answer R → Task R → Task R
  unfolding enter
  answered_first d (returns v) t = record t {
    phase = finished v;
    asked = t.asked ++ returns v ∷ [];
  }
  answered_first d interrupted t = enter d t.io (t.asked ++ interrupted ∷ [])
  answered_first d would_block t = enter d t.io (t.asked ++ would_block ∷ [])
  answered_first d (fails e) t = record t { phase = raised e; asked = t.asked ++ fails e ∷ [] }

  -- A parked task goes on at the head of the loop if its event is the one woken.
  unfoldable pub resume : Direction → Option ℕ → Task R → Phase R → Task R
  unfolding enter
  resume d (some e) t (parked p) = if e == p then enter d t.io t.asked else t
  resume d _ t _ = t

  unfoldable pub step_from : Direction → Phase R → Move R → Task R → Task R
  unfolding answered answered_first resume
  step_from d first (answer a) t = answered_first d a t
  step_from d calling (answer a) t = answered d a t
  step_from d p (answer a) t = t
  step_from d p (report r) t = let w = edge r t.io in resume d (woken d w) (record t { io = w.2 }) p
  step_from d p deregister t =
      let w = shutdown t.io in resume d (woken d w) (record t { io = w.2 }) p
  step_from d p (arms e) t = record t { io = (arm e t.io).1 }
  step_from d p (clears e) t = record t { io = clear e t.io }

  pub step : Direction → Task R → Move R → Task R
  unfolding step_from
  step d t m = step_from d t.phase m t

  pub run : Direction → Task R → List (Move R) → Task R
  unfolding step
  run d t [] = t
  run d t (m ∷ ms) = run d (step d t m) ms
