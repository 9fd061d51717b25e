-- ===== src/Subprocess/Waiting.antt =====
-- `Process` of tonio/_subprocess.py, in the hands of one task: polling a child, and waiting for it at its
-- descriptor. The child moves in between.
pub mod Polling
pub mod Reaping
use tonio.Prelude.{
  ℕ, suc, ◌+◌, ◌≡◌, ◌≢◌, refl, sym, ap, ◌∙◌, Bool, true, false, Option, none, some, List, [], ◌∷◌,
  arith, if◌then◌else◌, ◌==◌, Option-cases, Bool-cases, inl, inr,
}

-- Popen's returncode, negative for a signal.
pub data Status : Type 0 where
  code signalled : ℕ → Status

-- What `wait` has come to; `alive` has seen by `poll` that there is no exit, and `blocked` has called Popen.wait for a child that has not ended.
pub data Phase : Type 0 where
  outside alive parked blocked attribute_error : Phase
  returned : Status → Phase

-- `exited` is what the kernel knows, `returncode` what Popen has seen; `pidfd` is whether `_pidfd` is
-- there, and `closes` counts its closes.
pub record Process : Type 0 where
  pub exited : Option Status
  pub returncode : Option Status
  pub pidfd : Bool
  pub closes : ℕ
  pub phase : Phase

unfoldable pub started : Process
started = record { exited = none; returncode = none; pidfd = true; closes = 0; phase = outside }

-- Popen.poll: what was seen before, otherwise what the kernel says.
pub seen : Option Status → Option Status → Option Status
seen (some s) exited = some s
seen none exited = exited

-- `_close_pidfd`
pub close_from : Bool → Process → Process
close_from true p = record p { pidfd = false; closes = suc p.closes }
close_from false p = p

pub close_pidfd : Process → Process
unfolding close_from
close_pidfd p = close_from p.pidfd p

-- `if result is not None: self._close_pidfd()`
pub close_if : Option Status → Process → Process
unfolding close_pidfd
close_if none p = p
close_if (some s) p = close_pidfd p

-- `poll`, by way of `returncode`: its result is the new returncode.
pub poll : Process → Process
unfolding seen close_if
poll p =
    close_if (seen p.returncode p.exited) (record p { returncode = seen p.returncode p.exited })

-- `self._proc.wait()`, `self._close_pidfd()`, and the return.
pub popen_wait : Option Status → Process → Process
unfolding close_pidfd
popen_wait none p = record p { phase = blocked }
popen_wait (some s) p = close_pidfd (record p { returncode = some s; phase = returned s })

pub reap : Process → Process
unfolding popen_wait seen
reap p = popen_wait (seen p.returncode p.exited) p

-- `_io_arm_r`: `ready` is whether the descriptor is readable already.
pub arm : Bool → Bool → Process → Process
unfolding reap
arm false ready p = record p { phase = attribute_error }
arm true true p = reap p
arm true false p = record p { phase = parked }

-- `wait` under its lock, behind the call of `poll`.
pub polled : Option Status → Process → Process
polled (some s) p = record p { phase = returned s }
polled none p = record p { phase = alive }

pub data Move : Type 0 where
  -- the child ends
  exits : Status → Move
  -- the task calls `poll`
  polls : Move
  -- the task enters `wait`, and polls
  begins : Move
  -- it goes on to `_io_arm_r`; the descriptor is ready only if the child has ended
  arms : Bool → Move
  -- its waiter resumes it: the descriptor is readable; or raises CancelledError
  resumes cancels : Move

pub exit_step : Option Status → Status → Process → Process
exit_step (some t) s p = p
exit_step none s p = record p { exited = some s }

has_ended : Option Status → Bool
has_ended none = false
has_ended (some s) = true

-- The task polls before and behind its `wait`.
pub poll_step : Phase → Process → Process
unfolding poll
poll_step outside p = poll p
poll_step (returned s) p = poll p
poll_step _ p = p

pub begin_step : Phase → Process → Process
unfolding polled poll
begin_step outside p = let q = poll p in polled q.returncode q
begin_step (returned s) p = let q = poll p in polled q.returncode q
begin_step _ p = p

pub arm_step : Phase → Bool → Process → Process
unfolding arm has_ended
arm_step alive ready p = arm p.pidfd (if ready then has_ended p.exited else false) p
arm_step _ ready p = p

pub resume_step : Phase → Process → Process
unfolding reap has_ended
resume_step parked p = if has_ended p.exited then reap p else p
resume_step _ p = p

pub cancel_step : Phase → Process → Process
cancel_step parked p = record p { phase = outside }
cancel_step _ p = p

unfoldable pub step : Process → Move → Process
unfolding exit_step poll_step begin_step arm_step resume_step cancel_step
step p (exits s) = exit_step p.exited s p
step p polls = poll_step p.phase p
step p begins = begin_step p.phase p
step p (arms ready) = arm_step p.phase ready p
step p resumes = resume_step p.phase p
step p cancels = cancel_step p.phase p

unfoldable pub run : Process → List Move → Process
unfolding step
run p [] = p
run p (m ∷ ms) = run (step p m) ms

-- What `feed_input` of `run_process` lets by: the pipe is closed on every way out, and only
-- ResourceBroken, here the error `broken`, is passed over.
pub feed_input : ℕ → Option ℕ → Option ℕ × ℕ
feed_input broken none = (none, 1)
feed_input broken (some e) = if e == broken then (none, 1) else (some e, 1)
