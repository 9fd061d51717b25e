-- ===== src/Sync/Unbounded.antt =====
-- The unbounded channel: UnboundedChannelReceiver of tonio/_sync.py over UnboundedChannel of
-- src/sync.rs, with the counts of its open ends. The test of `closed` in `send` and the push behind
-- it are two steps, and so are the two halves of `close`, which `closed` and the lock of the state
-- separate.
mod Samples
pub mod Closing
use tonio.Prelude.{
  ℕ, suc, ◌+◌, ◌-◌, Bool, true, false, Option, none, some, List, [], ◌∷◌, ◌++◌, get_elem?, set,
  replicate, ◌==◌, if◌then◌else◌,
}
use tonio.Sync.Waiters.{Events, no_events, new_event, Phase, idle, holding, waiting}
use tonio.Sync.Channel.{set_if, set_all, front, behind, Received, got, blocked, broken}

pub record UnboundedChannel : Type 0 where
  pub queue : List ℕ
  pub waiters : List ℕ
  pub tx : ℕ
  pub rx : ℕ
  pub closed : Bool

unfoldable pub new : UnboundedChannel
new = record { queue = []; waiters = []; tx = 0; rx = 0; closed = false }

pub tx_add : UnboundedChannel → UnboundedChannel
tx_add c = record c { tx = c.tx + 1 }

pub rx_add : UnboundedChannel → UnboundedChannel
rx_add c = record c { rx = c.rx + 1 }

-- The compare_exchange of `close`, and whether it succeeded.
pub mark : UnboundedChannel → Bool × UnboundedChannel
mark c = if c.closed then (false, c) else (true, record c { closed = true })

-- `fetch_sub(1) == 1` of the count, and `close` as far as `mark`.
pub tx_rem : UnboundedChannel → Bool × UnboundedChannel
unfolding mark
tx_rem c = let c' = record c { tx = c.tx - 1 } in if c.tx == 1 then mark c' else (false, c')

pub rx_rem : UnboundedChannel → Bool × UnboundedChannel
unfolding mark
rx_rem c = let c' = record c { rx = c.rx - 1 } in if c.rx == 1 then mark c' else (false, c')

-- The second half of `close`: the waiters are taken and their events set.
pub drain : UnboundedChannel → Events → UnboundedChannel × Events
unfolding set_all
drain c es = (record c { waiters = [] }, set_all c.waiters es)

pub push : ℕ → UnboundedChannel → Events → UnboundedChannel × Events
unfolding set_if
push m c es = (
  record c { queue = c.queue ++ m ∷ []; waiters = behind c.waiters },
  set_if (front c.waiters) es,
)

pub pull_from : List ℕ → UnboundedChannel → Events → Received × UnboundedChannel × Events
unfolding new_event
pull_from [] c es =
    if c.closed
    then (broken, c, es)
    else (blocked es.made, record c { waiters = c.waiters ++ es.made ∷ [] }, new_event es)
pull_from (m ∷ q) c es = (got m, record c { queue = q }, es)

-- UnboundedChannelReceiver._receive
pub receive_once : UnboundedChannel → Events → Received × UnboundedChannel × Events
unfolding pull_from
receive_once c es = pull_from c.queue c es

-- The channel with the tasks that use it: a sender is out of `send`, or has passed its test with a
-- message. `draining` is whether a `close` stands between its halves.
pub record System : Type 0 where
  pub channel : UnboundedChannel
  pub draining : Bool
  pub events : Events
  pub senders : List (Option ℕ)
  pub tasks : List Phase
  pub sent : List ℕ
  pub received : List ℕ

-- `unbounded_channel`, with a number of tasks that send and a number of tasks that receive.
unfoldable pub start : ℕ → ℕ → System
unfolding new tx_add rx_add
start n k = record {
  channel = rx_add (tx_add new);
  draining = false;
  events = no_events;
  senders = replicate n none;
  tasks = replicate k idle;
  sent = [];
  received = [];
}

pub data Move : Type 0 where
  -- sender `i` calls `send` with a message, and pushes it
  checks : ℕ → ℕ → Move
  pushes : ℕ → Move
  -- an end is made or dropped, or a sender's `close` is called
  adds_tx adds_rx drops_tx drops_rx closes : Move
  -- the `close` that marked the channel goes on
  drains : Move
  -- task `i` calls `receive`, or goes on in its loop because its event is set
  receives : ℕ → Move
  -- CancelledError at the waiter of task `i`
  cancels : ℕ → Move

pub check_from : Option (Option ℕ) → ℕ → ℕ → System → System
check_from (some none) i m s =
    if s.channel.closed then s else record s { senders = set s.senders i (some m) }
check_from _ i m s = s

pub push_from : Option (Option ℕ) → ℕ → System → System
unfolding push
push_from (some (some m)) i s =
    let (c, es) = push m s.channel s.events in
    record s { channel = c; events = es; senders = set s.senders i none; sent = s.sent ++ m ∷ [] }
push_from _ i s = s

-- The channel behind the first half of a `close`, where there was one.
pub marked : Bool × UnboundedChannel → System → System
marked (won, c) s = record s { channel = c; draining = if won then true else s.draining }

pub drain_from : Bool → System → System
unfolding drain
drain_from true s =
    let (c, es) = drain s.channel s.events in
    record s { channel = c; events = es; draining = false }
drain_from false s = s

-- One round of the loop in `receive`, by task `i`.
pub round : ℕ → Received × UnboundedChannel × Events → System → System
round i (got m, c, es) s = record s {
  channel = c;
  events = es;
  tasks = set s.tasks i idle;
  received = s.received ++ m ∷ [];
}
round i (blocked e, c, es) s = record s {
  channel = c;
  events = es;
  tasks = set s.tasks i (waiting e);
}
round i (broken, c, es) s = record s { channel = c; events = es; tasks = set s.tasks i idle }

pub receive_from : Option Phase → ℕ → System → System
unfolding receive_once round
receive_from (some idle) i s = round i (receive_once s.channel s.events) s
receive_from (some (waiting e)) i s =
    let next = round i (receive_once s.channel s.events) s in if s.events.flag e then next else s
receive_from _ i s = s

pub cancel_from : Option Phase → ℕ → System → System
cancel_from (some (waiting e)) i s = record s { tasks = set s.tasks i idle }
cancel_from _ i s = s

unfoldable pub step : System → Move → System
unfolding tx_add rx_add mark tx_rem rx_rem check_from push_from marked drain_from receive_from
    cancel_from
step s (checks i m) = check_from (get_elem? s.senders i) i m s
step s (pushes i) = push_from (get_elem? s.senders i) i s
step s adds_tx = record s { channel = tx_add s.channel }
step s adds_rx = record s { channel = rx_add s.channel }
step s drops_tx = marked (tx_rem s.channel) s
step s drops_rx = marked (rx_rem s.channel) s
step s closes = marked (mark s.channel) s
step s drains = drain_from s.draining s
step s (receives i) = receive_from (get_elem? s.tasks i) i s
step s (cancels i) = cancel_from (get_elem? s.tasks i) i s

unfoldable pub run : System → List Move → System
unfolding step
run s [] = s
run s (m ∷ ms) = run (step s m) ms
