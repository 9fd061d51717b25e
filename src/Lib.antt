-- ===== src/Lib.antt =====
-- A model of tonio, a multi-threaded asynchronous runtime for Python, and what holds of it.
--
-- The program is a Python package, tonio/, over a native module, src/, that has the scheduler, the
-- poller and the primitives. Coroutines run on many threads, and give up control at a waiter of an
-- event. A component is modelled by its state, a record, and a function for each operation; the
-- tasks that use it are a list of phases, and any interleaving of their moves is a list of moves.
-- So a theorem on all such lists covers every order of the moves that the component has; each file
-- says what its moves are and what it takes as one step.
--
-- Prelude has the shared names: tests on numbers, and lists over the native numbers.
--
-- Events is src/events.rs: an event, whose `set` and `clear` are two steps each, and the
-- suspensions that its wakers, their timers and an abort resume. The other modules take an event as
-- a flag, which Events.Waking justifies, since a waiter of one event is woken by it once.
--
-- Sync is tonio/_sync.py. Sync.Waiters has the events of src/events.rs, and the queue that a
-- release drains; Sync.Lock and Sync.Semaphore have `acquire`, `try_acquire`, `release` of
-- src/sync.rs under their own names, and `call_lock`, `call_semaphore`, `abandon`, `or_raise` for
-- the Python around them. Sync.Waiters.Counts has the invariant both share, and Sync.Waiters.Steps
-- that each step keeps it. Sync.Channel is the bounded channel: `push`, `pull_from`, `close` of
-- src/sync.rs, and `send`, `receive_once` and the loop of `receive`; Sync.Channel.Ends adds the
-- counts of its ends, whose last drop closes it. Sync.Unbounded is the unbounded channel, where the
-- test in `send` and both halves of `close` are steps of their own.
--
-- Sync.Lock.Mutex is the abstract mutex, a flag and a queue of tasks, that the lock implements.
--
-- Scope is tonio/_scope.py over src/scope.rs: `spawn`, `enter`, `leave`, `call` of the one, and
-- `incr`, `track`, `exit`, `cancel` of the other.
--
-- Ctl is tonio/_ctl.py. Ctl.Spawn is `spawn` and `map` over the barrier: `record_outcome` and
-- `acked` are the wrapper round each coroutine, `join` what is awaited; Ctl.Joining is
-- `spawn.without_results` and `block_on`. Ctl.Select is `select` over a scope, with the result of a
-- coroutine and its event in the scope as two steps, and Ctl.Select.Awaited that of
-- tonio/_colored/_ctl.py. Ctl.Blocking is `spawn_blocking` with the task of src/blocking.rs, whose
-- thread and whose coroutine take their steps in any order, and Ctl.Completed is `as_completed`.
--
-- Io is src/io/schedule.rs, the readiness of a descriptor: `arm`, `clear`, `consume` for tasks, and
-- `edge` (set_readiness and wake) and `shutdown` for the poller. The readiness word is read as its
-- tick, modulo 256, and its flags.
--
-- Net.Socket is the loop in the methods of tonio/_net/_socket.py over Io: the kernel's answers, the
-- poller's reports, what other tasks arm and clear, and a close come in any order. Net.Socket.Calls
-- has each method's call and start, Net.Socket.Connect the loop of `connect`, Net.Socket.Handle the
-- methods that do not suspend, and Net.Address the resolution of addresses. Net.Streams is
-- tonio/_net/_streams.py, and Net.Tls is tonio/_net/_tls.py with src/net/tls.rs: there the ssl
-- object is the list of what its calls give, and the transport a record of two functions.
-- Net.Tls.Sharing is `_send` as several tasks call it: the step of the ssl object, the lock, a
-- cancelled wait for it and the send are moves, in any order; Net.Tls.Receiving is `_recv` so.
--
-- Net.Hilvl is tonio/_net/_hilvl.py: Listeners is `open_tcp_listeners`, Racing is
-- `open_tcp_stream`, whose attempts run in any order and end in any way, Serving is the loop of
-- `serve_listeners`, Unix is `open_unix_listener`, and Secure composes these, with the listener of
-- tonio/_net/_tls.py where a server or a stream has TLS over TCP.
--
-- Fd is tonio/_fd.py, the pipe ends over Io, and Time is tonio/_time.py, intervals and `timeout`.
-- Time.Timers is src/time.rs with the part of the poller in src/runtime.rs that fires timers.
-- Subprocess is tonio/_subprocess.py: `open_process` with the stacks that clean up its pipes, and
-- what `run_process` asks for, collects and gives; Subprocess.Waiting is `poll` and `wait` by one
-- task.
--
-- Files.Wrapper is tonio/_fs/_file.py: which attributes of a file are its own, which run in a
-- thread, and which files fit. Files.Paths is tonio/_fs/_path.py: a method is given by what pathlib
-- gives, and how `Path` wraps it.
--
-- Runtime is tonio/_runtime.py and the handlers of tonio/_signals.py: a runtime is its self-socket
-- and its flags beside the state of signals of the process. Runtime.Entry is `new`,
-- `run_until_complete`, and `main` of tonio/_deco.py. Runtime.Schedule is src/work.rs, how workers
-- go idle and are woken, where a flag and the count of the flags change in steps of their own.
-- Signals is tonio/signals.py over tonio/_signals.py and the table of src/runtime.rs: `register`
-- and `exit` enter and leave a receiver, `deliver_from` is the poller's part, which queues an
-- event, `handle_from` sets it, and `turn` is a coroutine's.
--
-- Colored is tonio/_colored, the variants for `async` and `await`, where they are code of their
-- own: Colored.Socket has the methods of a socket, over the machines of Net.Socket, Colored.Spawn
-- the object that `spawn` returns and any task may await, Colored.Completed the generator of
-- `as_completed`. Testing is the pytest plugin, tonio/_testutils/_pytest_plugin.py.
--
-- Parameters: the heap of timers, the C library's `inet_pton` and `getaddrinfo`, the transport of a
-- TLS stream, the answers of pathlib, of a file and of the signal module, and the kernel's, which
-- are lists or fields. A loop runs along the answers it gets; that which fires timers has as fuel
-- the number of timers, one of which each round takes.
--
-- Not modelled: the queues of handles and what a handle runs, the pool of blocking threads, and the
-- poller's own loop, which are threads and system calls; the other modules of tonio/_colored, which
-- repeat the same code with `await`; and the getters that only call another library. A message, a
-- value or a socket is a number wherever the code only passes it on.
pub mod Prelude
pub mod Events
pub mod Sync
pub mod Scope
pub mod Ctl
pub mod Io
pub mod Net
pub mod Fd
pub mod Time
pub mod Subprocess
pub mod Files
pub mod Runtime
pub mod Signals
pub mod Testing
pub mod Colored
