-- ===== src/Sync/Channel.antt =====
-- The bounded channel: ChannelSender and ChannelReceiver of tonio/_sync.py over Channel of
-- src/sync.rs. The length counter and the queue are changed together, and the test of `closed` in
-- `_send` with the push behind it.
mod Samples
pub mod Order
pub mod Wakeups
pub mod Parked
pub mod Ends
use tonio.Prelude.{
  ℕ, suc, ◌+◌, ◌-◌, Bool, true, false, Option, none, some, List, [], ◌∷◌, ◌++◌, get_elem?, set,
  replicate, leb, if◌then◌else◌,
}
use tonio.Sync.Waiters.{Events, no_events, new_event, set_event, Phase, idle, holding, waiting}

-- A queued message, with the event of the `send` that waits for it to be pulled.
pub record Entry : Type 0 where
  pub message : ℕ
  pub want_pull : Option ℕ

pub record Channel : Type 0 where
  pub size : ℕ
  pub len : ℕ
  pub queue : List Entry
  pub waiters : List ℕ
  pub closed : Bool

pub new : ℕ → Channel
new size = record { size = size; len = 0; queue = []; waiters = []; closed = false }

-- `if let Some(event) = … { event.set() }`
unfoldable pub set_if : Option ℕ → Events → Events
unfolding set_event
set_if none es = es
set_if (some e) es = (set_event e es).1

unfoldable pub set_all : List ℕ → Events → Events
unfolding set_event
set_all [] es = es
set_all (e ∷ q) es = set_all q (set_event e es).1

-- A deque without its front, and the front.
abbrev pub front : List ℕ → Option ℕ
front [] = none
front (e ∷ q) = some e

abbrev pub behind : List ℕ → List ℕ
behind [] = []
behind (e ∷ q) = q

unfoldable pub close : Channel → Events → Channel × Events
unfolding set_all
close c es =
    if c.closed then (c, es) else (record c { closed = true; waiters = [] }, set_all c.waiters es)

-- The event that a full channel makes the sender wait on.
unfoldable pub want_pull : Channel → Events → Option ℕ × Events
unfolding new_event
want_pull c es = if leb c.size c.len then (some es.made, new_event es) else (none, es)

-- Channel::push: the event to wait on, if the channel was full.
unfoldable pub push : ℕ → Channel → Events → Option ℕ × Channel × Events
unfolding want_pull set_if
push m c es =
    let (want, es') = want_pull c es in
    (
      want,
      record c {
        len = c.len + 1;
        queue = c.queue ++ record { message = m; want_pull = want } ∷ [];
        waiters = behind c.waiters;
      },
      set_if (front c.waiters) es',
    )

-- ChannelSender._send: `none` is BrokenPipeError.
unfoldable pub send : ℕ → Channel → Events → Option (Option ℕ × Channel × Events)
unfolding push
send m c es = if c.closed then none else some (push m c es)

-- What ChannelReceiver._receive gives: a message, an event to wait on, or BrokenPipeError.
pub data Received : Type 0 where
  got : ℕ → Received
  blocked : ℕ → Received
  broken : Received

unfoldable pub pull_from : List Entry → Channel → Events → Received × Channel × Events
unfolding set_if new_event
pull_from [] c es =
    if c.closed
    then (broken, c, es)
    else (blocked es.made, record c { waiters = c.waiters ++ es.made ∷ [] }, new_event es)
pull_from (x ∷ q) c es =
    (got x.message, record c { len = c.len - 1; queue = q }, set_if x.want_pull es)

unfoldable pub receive_once : Channel → Events → Received × Channel × Events
unfolding pull_from
receive_once c es = pull_from c.queue c es

-- The channel, its receivers' tasks, and what has been sent and received so far.
pub record System : Type 0 where
  pub channel : Channel
  pub events : Events
  pub tasks : List Phase
  pub sent : List ℕ
  pub received : List ℕ

pub start : ℕ → ℕ → System
unfolding new
start size k = record {
  channel = new size;
  events = no_events;
  tasks = replicate k idle;
  sent = [];
  received = [];
}

pub data Move : Type 0 where
  -- some task sends a message, and waits if it must
  sends : ℕ → Move
  closes : Move
  -- task `i` calls `receive`, or goes on in its loop because its event is set
  receives : ℕ → Move
  -- CancelledError at the waiter of task `i`: `receive` has no handler for it
  cancels : ℕ → Move

-- One round of the loop in `receive`, by task `i`.
abbrev pub round : ℕ → Received × Channel × Events → System → System
round i (got m, c, es) s = record s {
  channel = c;
  events = es;
  tasks = set s.tasks i idle;
  received = s.received ++ m ∷ [];
}
round i (blocked e, c, es) s = record s {
  channel = c;
  events = es;
  tasks = set s.tasks i (waiting e);
}
round i (broken, c, es) s = record s { channel = c; events = es; tasks = set s.tasks i idle }

pub receive_from : Option Phase → ℕ → System → System
unfolding receive_once
receive_from (some idle) i s = round i (receive_once s.channel s.events) s
receive_from (some (waiting e)) i s =
    let next = round i (receive_once s.channel s.events) s in if s.events.flag e then next else s
receive_from _ i s = s

pub cancel_from : Option Phase → ℕ → System → System
cancel_from (some (waiting e)) i s = record s { tasks = set s.tasks i idle }
cancel_from _ i s = s

pub step : System → Move → System
unfolding send close receive_from cancel_from
step s (sends m) = elim (send m s.channel s.events) [
  | none ↦ s
  | some r ↦ record s { channel = r.1; events = r.2; sent = s.sent ++ m ∷ [] }
]
step s closes = let (c, es) = close s.channel s.events in record s { channel = c; events = es }
step s (receives i) = receive_from (get_elem? s.tasks i) i s
step s (cancels i) = cancel_from (get_elem? s.tasks i) i s

pub run : System → List Move → System
unfolding step
run s [] = s
run s (m ∷ ms) = run (step s m) ms
