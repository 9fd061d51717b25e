-- ===== src/Ctl/Blocking.antt =====
-- `spawn_blocking` of tonio/_ctl.py over BlockingTaskCtl of src/blocking.rs: a coroutine that waits for
-- a function that a thread of the pool calls. The steps of the two come in any order.
mod Samples
pub mod Places
pub mod Stores
pub mod Results
use tonio.Prelude.{Bool, true, false, Option, none, some, List, [], ◌∷◌, if◌then◌else◌}

pub data TaskState : Type 0 where
  queued running cancelled done : TaskState

-- What the function's call gives, and also the value in the second slot of the result.
pub data Ret (V E : Type 0) : Type 0 where
  ok : V → Ret V E
  err : E → Ret V E

-- Where the thread stands: in the call, behind each of the two stores of the result, or at the end,
-- with what the call has given, if there was one.
pub data Thread (V E : Type 0) : Type 0 where
  idle calling : Thread V E
  returned tagged filled : Ret V E → Thread V E
  over : Option (Ret V E) → Thread V E

-- How `spawn_blocking` ends: an empty second slot is Python's None.
pub data End (V E : Type 0) : Type 0 where
  gives : Option (Ret V E) → End V E
  raises : Option (Ret V E) → End V E
  unwound : End V E

-- Where the coroutine stands: at its first wait, at that behind `abort`, or at the end.
pub data Phase (V E : Type 0) : Type 0 where
  waiting waiting_again : Phase V E
  ended : End V E → Phase V E

-- `tag` and `value` are the slots of the result, and `exception_sent` says that CancelledError was sent
-- to the thread.
pub record Task (V E : Type 0) : Type 0 where
  pub state : TaskState
  pub tag : Option Bool
  pub value : Option (Ret V E)
  pub event : Bool
  pub exception_sent : Bool
  pub thread : Thread V E
  pub phase : Phase V E

pub data Move (V E : Type 0) : Type 0 where
  -- a thread takes the task
  begin : Move V E
  -- the function's call ends
  ends : Ret V E → Move V E
  -- the next step of the thread behind the call
  next : Move V E
  -- the waiter of the event resumes the coroutine
  wake : Move V E
  -- CancelledError is thrown in at the waiter
  cancel : Move V E

pub is_err : {V E : Type 0} → Ret V E → Bool
is_err (ok v) = false
is_err (err e) = true

module _ {V E : Type 0} where
  pub submitted : Task V E
  submitted = record {
    state = queued;
    tag = none;
    value = none;
    event = false;
    exception_sent = false;
    thread = idle;
    phase = waiting;
  }

  -- `begin`: the task is run only if it is still queued.
  pub begun : TaskState → Task V E → Task V E
  begun queued t = record t { state = running; thread = calling }
  begun _ t = record t { thread = over none }

  -- `store_ok` and `store_err` are two stores each; `finish` and `notify` follow.
  pub advance : Thread V E → Task V E → Task V E
  unfolding is_err
  advance (returned r) t = record t { tag = some (is_err r); thread = tagged r }
  advance (tagged r) t = record t { value = some r; thread = filled r }
  advance (filled r) t = record t { state = done; event = true; thread = over (some r) }
  advance _ t = t

  module _ (abort_error : E) where
    -- `abort`: a queued task is ended here, a running one is sent CancelledError.
    pub abort : TaskState → Task V E → Task V E
    abort queued t = record t {
      state = cancelled;
      tag = some true;
      value = some (err abort_error);
      event = true;
    }
    abort running t = record t { exception_sent = true }
    abort _ t = t

    pub unpacked : Bool → Option (Ret V E) → End V E
    unpacked true x = raises x
    unpacked false x = gives x

    -- The end of the function, from `err, val = res.fetch()`, behind the first wait.
    pub checked : Option Bool → Task V E → Task V E
    unfolding abort unpacked
    checked none t = record (abort t.state t) { phase = waiting_again }
    checked (some b) t = record t { phase = ended (unpacked b t.value) }

    -- The same behind the second wait: None is not True, so the value is returned.
    pub finished : Option Bool → Task V E → Task V E
    unfolding unpacked
    finished none t = record t { phase = ended (gives t.value) }
    finished (some b) t = record t { phase = ended (unpacked b t.value) }

    pub resumed : Phase V E → Task V E → Task V E
    unfolding checked finished
    resumed waiting t = checked t.tag t
    resumed waiting_again t = finished t.tag t
    resumed (ended r) t = t

    -- The first wait suppresses CancelledError, the second does not.
    pub thrown : Phase V E → Task V E → Task V E
    unfolding checked
    thrown waiting t = checked t.tag t
    thrown waiting_again t = record t { phase = ended unwound }
    thrown (ended r) t = t

    pub begin_step : Thread V E → Task V E → Task V E
    unfolding begun
    begin_step idle t = begun t.state t
    begin_step _ t = t

    pub end_step : Thread V E → Ret V E → Task V E → Task V E
    end_step calling r t = record t { thread = returned r }
    end_step _ r t = t

    unfoldable pub step : Task V E → Move V E → Task V E
    unfolding begin_step end_step advance resumed thrown
    step t begin = begin_step t.thread t
    step t (ends r) = end_step t.thread r t
    step t next = advance t.thread t
    step t wake = if t.event then resumed t.phase t else t
    step t cancel = thrown t.phase t

    unfoldable pub run : Task V E → List (Move V E) → Task V E
    unfolding step
    run t [] = t
    run t (m ∷ ms) = run (step t m) ms
