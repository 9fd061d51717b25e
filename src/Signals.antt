-- ===== src/Signals.antt =====
-- tonio/signals.py over tonio/_signals.py, and the table of handlers in src/runtime.rs: receivers of
-- signals, each with a coroutine and an event for every signal. The channel of a receiver, which is
-- never closed, is its queue.
mod Samples
pub mod Accounting
pub mod Stealing
use tonio.Prelude.{
  ℕ, zero, suc, Bool, true, false, Option, none, some, List, [], ◌∷◌, ◌++◌, map, get_elem?, set,
  update, ◌==◌, if◌then◌else◌,
}
use tonio.Sync.Waiters.{Events, no_events, new_event, set_event}

-- Where the loop of a coroutine stands: at its waiter, behind `event.clear()`, there with the receiver
-- left, or ended by CancelledError.
pub data Phase : Type 0 where
  awaiting notified leaving gone : Phase

pub record Coro : Type 0 where
  pub receiver : ℕ
  pub sig : ℕ
  pub event : ℕ
  pub phase : Phase

-- `handles` are the events that the runtime has queued to be set. `noted` are the events that a signal has set, and `sent` those whose coroutine has sent its signal.
pub record System : Type 0 where
  pub handlers : ℕ → Option ℕ
  pub events : Events
  pub coros : List Coro
  pub queue : ℕ → List ℕ
  pub handles : List ℕ
  pub noted : List ℕ
  pub sent : List ℕ

unfoldable pub start : System
start = record {
  handlers = λ sig. none;
  events = no_events;
  coros = [];
  queue = λ r. [];
  handles = [];
  noted = [];
  sent = [];
}

-- Runtime::_sig_add: a new event, in place of the one that the signal had.
pub sig_add : ℕ → System → System
unfolding new_event
sig_add sig s = record s {
  handlers = update s.handlers sig (some s.events.made);
  events = new_event s.events;
}

-- Runtime::_sig_rem
pub sig_rem : ℕ → System → System
sig_rem sig s = record s { handlers = update s.handlers sig none }

-- `_register_coros`
pub register : ℕ → List ℕ → System → System
unfolding sig_add
register r [] s = s
register r (sig ∷ sigs) s =
    let c : Coro = record { receiver = r; sig = sig; event = s.events.made; phase = awaiting } in
    let t = sig_add sig s in register r sigs (record t { coros = t.coros ++ c ∷ [] })

-- CancelledError at the checkpoint of a coroutine; one that is running meets it at its next wait.
pub unwound : Phase → Phase
unwound awaiting = gone
unwound notified = leaving
unwound leaving = leaving
unwound gone = gone

pub unwind : ℕ → Coro → Coro
unfolding unwound
unwind r c = record c { phase = if c.receiver == r then unwound c.phase else c.phase }

pub rem_all : List ℕ → System → System
unfolding sig_rem
rem_all [] s = s
rem_all (sig ∷ sigs) s = rem_all sigs (sig_rem sig s)

-- `__exit__`, whose `_cancel_coros` unwinds all checkpoints.
pub exit : ℕ → List ℕ → System → System
unfolding unwind
exit r sigs s = let t = rem_all sigs s in record t { coros = map (unwind r) t.coros }

-- Runtime::handle_io_signals, for one signal that was read while the runtime listens to signals: its
-- event becomes a handle.
pub deliver_from : Option ℕ → System → System
deliver_from none s = s
deliver_from (some e) s = record s { handles = s.handles ++ e ∷ [] }

abbrev pub drop_at : ℕ → List ℕ → List ℕ
drop_at k [] = []
drop_at zero (e ∷ es) = es
drop_at (suc k) (e ∷ es) = e ∷ drop_at k es

-- Event::run, for the `k`-th of the handles, which the threads of the runtime take in any order.
pub handle_from : Option ℕ → ℕ → System → System
unfolding set_event
handle_from none k s = s
handle_from (some e) k s =
    let (won, es) = set_event e s.events in
    record s {
      events = es;
      handles = drop_at k s.handles;
      noted = if won then s.noted ++ e ∷ [] else s.noted;
    }

-- Event::clear
pub clear_event : ℕ → Events → Events
clear_event e es = record es { flag = update es.flag e false }

pub send : Coro → Phase → ℕ → System → System
send c p i s = record s {
  coros = set s.coros i (record c { phase = p });
  queue = update s.queue c.receiver (s.queue c.receiver ++ c.sig ∷ []);
  sent = s.sent ++ c.event ∷ [];
}

-- The next part of the loop in `receiver`, for coroutine `i`.
pub turn : Phase → Coro → ℕ → System → System
unfolding send clear_event
turn awaiting c i s =
    if s.events.flag c.event
    then record s {
      events = clear_event c.event s.events;
      coros = set s.coros i (record c { phase = notified });
    }
    else s
turn notified c i s = send c awaiting i s
turn leaving c i s = send c gone i s
turn gone c i s = s

pub turn_from : Option Coro → ℕ → System → System
unfolding turn
turn_from none i s = s
turn_from (some c) i s = turn c.phase c i s

-- `__next__`, where there is a signal in the channel.
pub behind_next : List ℕ → List ℕ
behind_next [] = []
behind_next (sig ∷ sigs) = sigs

pub data Move : Type 0 where
  -- a receiver of the given number is entered, or left, with its signals
  enters exits : ℕ → List ℕ → Move
  delivers : ℕ → Move
  -- a queued event is set
  handles_at : ℕ → Move
  turns : ℕ → Move
  takes : ℕ → Move

unfoldable pub step : System → Move → System
unfolding register exit deliver_from handle_from turn_from behind_next
step s (enters r sigs) = register r sigs s
step s (exits r sigs) = exit r sigs s
step s (delivers sig) = deliver_from (s.handlers sig) s
step s (handles_at k) = handle_from (get_elem? s.handles k) k s
step s (turns i) = turn_from (get_elem? s.coros i) i s
step s (takes r) = record s { queue = update s.queue r (behind_next (s.queue r)) }

unfoldable pub run : System → List Move → System
unfolding step
run s [] = s
run s (m ∷ ms) = run (step s m) ms
