-- ===== src/Fd.antt =====
-- Fd and FdStream of tonio/_fd.py, over src/fd.rs: a pipe's end, and writing all of some data to it.
mod Samples
pub mod Writing
use tonio.Prelude.{
  ℕ, suc, ◌+◌, Bool, true, false, Option, none, some, List, [], ◌∷◌, ◌++◌, length, take, drop, ltb,
  ◌==◌, if◌then◌else◌,
}
use tonio.Io.{Ready, Direction, reading, writing, ScheduledIo, arm, clear, edge, shutdown, woken}
use tonio.Net.Socket

-- `fd` is none once it is dropped, where Python reads -1; `os_closed` has the numbers that went to
-- `os.close`, and `deregistered` counts the calls of `_io_close`.
pub record Fd : Type 0 where
  pub fd : Option ℕ
  pub os_closed : List ℕ
  pub deregistered : ℕ

pub open_fd : ℕ → Fd
open_fd n = record { fd = some n; os_closed = []; deregistered = 0 }

-- `Fd.close`, which is also `__del__`, and the same of ProcFd.
pub close : Fd → Fd
close f = elim f.fd [
  | none ↦ f
  | some n ↦ record {
    fd = none;
    os_closed = f.os_closed ++ n ∷ [];
    deregistered = suc f.deregistered;
  }
]

pub close_times : ℕ → Fd → Fd
unfolding close
close_times ℕ.zero f = f
close_times (suc n) f = close_times n (close f)

-- How `os.write` ends.
pub data Answer : Type 0 where
  wrote : ℕ → Answer
  interrupted : Answer
  would_block : Answer
  broken_pipe : Answer
  fails : ℕ → Answer

pub data Phase : Type 0 where
  calling : Phase
  parked : ℕ → Phase
  finished : Phase
  -- RuntimeError: file closed; WouldBlock; ResourceBroken; another error
  file_closed locked_out resource_broken : Phase
  raised : ℕ → Phase

-- A call of `send_all`: `lock_w` is the writer's lock, `sent` the count, and `written` the bytes.
pub record Task : Type 0 where
  pub io : ScheduledIo
  pub lock_w : Bool
  pub phase : Phase
  pub sent : ℕ
  pub written : List ℕ

pub data Move : Type 0 where
  answer : Answer → Move
  report : Ready → Move
  deregister : Move

abbrev armed : Option ℕ → Phase
armed none = calling
armed (some e) = parked e

-- The head of the inner loop.
pub enter : Task → Task
enter t = let (event, io') = arm writing t.io in record t { io = io'; phase = armed event }

-- The end of the `with` block of the lock.
abbrev leave : Phase → Task → Task
leave p t = record t { phase = p; lock_w = false }

-- The outer loop, when the inner one has broken out.
pub go_on : List ℕ → Task → Task
unfolding enter
go_on data' t = if ltb t.sent (length data') then enter t else leave finished t

pub answered : List ℕ → Answer → Task → Task
unfolding enter go_on
answered data' (wrote n) t =
    go_on data' (record t { sent = t.sent + n; written = t.written ++ take n (drop t.sent data') })
answered data' interrupted t = enter t
answered data' would_block t = enter (record t { io = clear writing t.io })
answered data' broken_pipe t = leave resource_broken t
answered data' (fails e) t = leave (raised e) t

pub resume : Option ℕ → Phase → Task → Task
unfolding enter
resume (some e) (parked p) t = if e == p then enter t else t
resume _ p t = t

pub step_from : List ℕ → Phase → Move → Task → Task
unfolding answered resume
step_from data' calling (answer a) t = answered data' a t
step_from data' p (answer a) t = t
step_from data' p (report r) t = let w = edge r t.io in resume w.1 p (record t { io = w.2 })
step_from data' p deregister t = let w = shutdown t.io in resume w.1 p (record t { io = w.2 })

pub run : List ℕ → Task → List Move → Task
unfolding step_from
run data' t [] = t
run data' t (m ∷ ms) = run data' (step_from data' t.phase m t) ms

-- `send_all` up to its first suspension: the file's state, then the lock, then the data.
pub send_all : Bool → Bool → List ℕ → ScheduledIo → Task
unfolding go_on
send_all true lock data' io = record {
  io = io;
  lock_w = lock;
  phase = file_closed;
  sent = 0;
  written = [];
}
send_all false true data' io = record {
  io = io;
  lock_w = true;
  phase = locked_out;
  sent = 0;
  written = [];
}
send_all false false data' io =
    go_on data' (record { io = io; lock_w = true; phase = calling; sent = 0; written = [] })

-- How `receive_some` starts: RuntimeError, WouldBlock, or the loop of Net.Socket with the reader's
-- lock taken.
pub data Started (R : Type 0) : Type 0 where
  closed : Started R
  refused : Started R
  loops : Socket.Task R → Started R

pub receive_some : {R : Type 0} → Bool → Bool → ScheduledIo → Started R
receive_some true lock io = closed
receive_some false true io = refused
receive_some false false io = loops (Socket.enter reading io [])
