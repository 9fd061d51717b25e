-- ===== src/Sync/Unbounded/Closing.antt =====
-- What a close of the unbounded channel, and the last of its ends, leave behind.
use tonio.Prelude.{
  ℕ, ◌≡◌, ◌⊎◌, inl, inr, refl, sym, ap, subst, ◌∙◌, Bool, true, false, Option, none, some, List, [],
  ◌∷◌, ◌++◌, append_assoc, arith, get_elem?, set, get_elem?-set_self, Bool-cases, if◌then◌else◌,
}
use tonio.Sync.Waiters.{new_event, Phase, idle, holding, waiting}
use tonio.Sync.Channel.{behind, blocked, broken}
use tonio.Sync.Unbounded.{
  UnboundedChannel, System, Move, checks, pushes, adds_tx, adds_rx, drops_tx, drops_rx, closes,
  drains, receives, cancels, new, tx_add, rx_add, mark, tx_rem, rx_rem, drain, push, pull_from,
  receive_once, start, check_from, push_from, marked, drain_from, round, receive_from, cancel_from,
  step, run,
}
use tonio.Sync.Channel.Parked.{
  Parked, idle-Parked, wait-Parked, push-Parked, drain-Parked, none_wait,
}

-- `gone` of the counts: a channel without senders, or without receivers, is closed.
pub record IsSound (s : System) : Type 0 where
  pub parked : Parked s.tasks s.channel.waiters s.events
  pub quiet : s.channel.closed ≡ true → s.draining ≡ false → s.channel.waiters ≡ []
  pub no_tx : s.channel.tx ≡ 0 → s.channel.closed ≡ true
  pub no_rx : s.channel.rx ≡ 0 → s.channel.closed ≡ true
  pub order : s.sent ≡ s.received ++ s.channel.queue

-- The first half of a close, after a change of the counts.
marked-IsSound :
    (s : System) (r : Bool × UnboundedChannel)
    → IsSound s
    → r.1.queue ≡ s.channel.queue
    → r.1.waiters ≡ s.channel.waiters
    → (r.0 ≡ true) ⊎ (r.1.closed ≡ s.channel.closed)
    → (r.1.tx ≡ 0 → r.1.closed ≡ true)
    → (r.1.rx ≡ 0 → r.1.closed ≡ true)
    → IsSound (marked r s)
unfolding marked
marked-IsSound s r v q w c t x = record {
  parked = subst (λ ws. Parked s.tasks ws s.events) (sym w) v.parked;
  quiet = λ cl d. elim c [
    | inl won ↦ ground (arith, won, d)
    | inr same ↦ w ∙ v.quiet (sym same ∙ cl) (ground (arith, d))
  ];
  no_tx = t;
  no_rx = x;
  order = v.order ∙ ap (λ l. s.received ++ l) (sym q);
}

push-IsSound : (p : Option (Option ℕ)) (i : ℕ) (s : System) → IsSound s → IsSound (push_from p i s)
unfolding push_from push
push-IsSound none i s v = v
push-IsSound (some none) i s v = v
push-IsSound (some (some m)) i s v = record {
  parked = push-Parked s.tasks s.channel.waiters s.events v.parked;
  quiet = λ c d. ap behind (v.quiet c d);
  no_tx = v.no_tx;
  no_rx = v.no_rx;
  order = rw (v.order) (append_assoc s.received _ _);
}

check-IsSound :
    (p : Option (Option ℕ)) (i m : ℕ) (s : System) → IsSound s → IsSound (check_from p i m s)
unfolding check_from
check-IsSound none i m s v = v
check-IsSound (some (some n)) i m s v = v
check-IsSound (some none) i m s v =
    elim s.channel.closed
      as (λ b. IsSound (if b then s else record s { senders = set s.senders i (some m) })) [
        | true ↦ v
        | false ↦ record {
          parked = v.parked;
          quiet = v.quiet;
          no_tx = v.no_tx;
          no_rx = v.no_rx;
          order = v.order;
        }
      ]

drain-IsSound : (b : Bool) (s : System) → IsSound s → IsSound (drain_from b s)
unfolding drain_from drain
drain-IsSound false s v = v
drain-IsSound true s v = record {
  parked = drain-Parked s.tasks s.channel.waiters s.events v.parked;
  quiet = λ c d. refl;
  no_tx = v.no_tx;
  no_rx = v.no_rx;
  order = v.order;
}

-- The queue is empty: the channel is closed, or the task waits on a new event.
abbrev blocked_round : ℕ → System → Bool → System
blocked_round i s b =
    round i
      (if b then (broken, s.channel, s.events) else (
        blocked s.events.made,
        record s.channel { waiters = s.channel.waiters ++ s.events.made ∷ [] },
        new_event s.events,
      ))
      s

empty_round :
    (i : ℕ) (b : Bool) (s : System)
    → s.channel.closed ≡ b
    → IsSound s
    → IsSound (blocked_round i s b)
unfolding round
empty_round i true s h v = record {
  parked = idle-Parked i s.tasks s.channel.waiters s.events v.parked;
  quiet = v.quiet;
  no_tx = v.no_tx;
  no_rx = v.no_rx;
  order = v.order;
}
empty_round i false s h v = record {
  parked = wait-Parked i s.tasks s.channel.waiters s.events v.parked;
  quiet = λ c d. cc (c, h);
  no_tx = v.no_tx;
  no_rx = v.no_rx;
  order = v.order;
}

round-IsSound :
    (i : ℕ) (q : List ℕ) (s : System)
    → s.channel.queue ≡ q
    → IsSound s
    → IsSound (round i (pull_from q s.channel s.events) s)
unfolding round pull_from
round-IsSound i [] s e v = empty_round i s.channel.closed s refl v
round-IsSound i (m ∷ q) s e v = record {
  parked = idle-Parked i s.tasks s.channel.waiters s.events v.parked;
  quiet = v.quiet;
  no_tx = v.no_tx;
  no_rx = v.no_rx;
  order = v.order ∙ ap (λ l. s.received ++ l) e ∙ sym (append_assoc s.received _ _);
}

receive-IsSound : (p : Option Phase) (i : ℕ) (s : System) → IsSound s → IsSound (receive_from p i s)
unfolding receive_from receive_once
receive-IsSound none i s v = v
receive-IsSound (some idle) i s v = round-IsSound i s.channel.queue s refl v
receive-IsSound (some holding) i s v = v
receive-IsSound (some (waiting e)) i s v = elim (Bool-cases (s.events.flag e)) [
  | inl h ↦ rw h (round-IsSound i s.channel.queue s refl v)
  | inr h ↦ rw h v
]

cancel-IsSound : (p : Option Phase) (i : ℕ) (s : System) → IsSound s → IsSound (cancel_from p i s)
unfolding cancel_from
cancel-IsSound none i s v = v
cancel-IsSound (some idle) i s v = v
cancel-IsSound (some holding) i s v = v
cancel-IsSound (some (waiting e)) i s v = record {
  parked = idle-Parked i s.tasks s.channel.waiters s.events v.parked;
  quiet = v.quiet;
  no_tx = v.no_tx;
  no_rx = v.no_rx;
  order = v.order;
}

mark-IsSound : (s : System) → IsSound s → IsSound (marked (mark s.channel) s)
unfolding mark
mark-IsSound s v =
    marked-IsSound s (mark s.channel) v (ground arith) (ground arith) (ground arith)
      (ground (arith, v.no_tx)) (ground (arith, v.no_rx))

tx_rem-IsSound : (s : System) → IsSound s → IsSound (marked (tx_rem s.channel) s)
unfolding tx_rem mark
tx_rem-IsSound s v =
    marked-IsSound s (tx_rem s.channel) v (ground arith) (ground arith) (ground arith)
      (ground (arith, v.no_tx)) (ground (arith, v.no_rx))

rx_rem-IsSound : (s : System) → IsSound s → IsSound (marked (rx_rem s.channel) s)
unfolding rx_rem mark
rx_rem-IsSound s v =
    marked-IsSound s (rx_rem s.channel) v (ground arith) (ground arith) (ground arith)
      (ground (arith, v.no_tx)) (ground (arith, v.no_rx))

step-IsSound : (s : System) (m : Move) → IsSound s → IsSound (step s m)
unfolding step tx_add rx_add
step-IsSound s (checks i m) v = check-IsSound (get_elem? s.senders i) i m s v
step-IsSound s (pushes i) v = push-IsSound (get_elem? s.senders i) i s v
step-IsSound s adds_tx v = record {
  parked = v.parked;
  quiet = v.quiet;
  no_tx = λ h. absurd (omega arith);
  no_rx = v.no_rx;
  order = v.order;
}
step-IsSound s adds_rx v = record {
  parked = v.parked;
  quiet = v.quiet;
  no_tx = v.no_tx;
  no_rx = λ h. absurd (omega arith);
  order = v.order;
}
step-IsSound s drops_tx v = tx_rem-IsSound s v
step-IsSound s drops_rx v = rx_rem-IsSound s v
step-IsSound s closes v = mark-IsSound s v
step-IsSound s drains v = drain-IsSound s.draining s v
step-IsSound s (receives i) v = receive-IsSound (get_elem? s.tasks i) i s v
step-IsSound s (cancels i) v = cancel-IsSound (get_elem? s.tasks i) i s v

run-IsSound : (s : System) (ms : List Move) → IsSound s → IsSound (run s ms)
unfolding run
run-IsSound s [] v = v
run-IsSound s (m ∷ ms) v = run-IsSound (step s m) ms (step-IsSound s m v)

start-IsSound : (n k : ℕ) → IsSound (start n k)
unfolding start tx_add rx_add new
start-IsSound n k = record {
  parked = λ i e h. absurd (none_wait k i e h);
  quiet = λ c d. refl;
  no_tx = λ h. absurd (omega arith);
  no_rx = λ h. absurd (omega arith);
  order = refl;
}

-- The phase of a task behind a round of its loop in `receive`, on a closed channel.
closed_round :
    (i : ℕ) (q : List ℕ) (s : System)
    → (p : Phase) → get_elem? s.tasks i ≡ some p
    → s.channel.closed ≡ true
    → get_elem? (round i (pull_from q s.channel s.events) s).tasks i ≡ some idle
unfolding round pull_from
closed_round i [] s p at h =
    subst (λ b. get_elem? (blocked_round i s b).tasks i ≡ some idle) (sym h)
      (get_elem?-set_self s.tasks i idle p at)
closed_round i (m ∷ q) s p at h = get_elem?-set_self s.tasks i idle p at

-- A receiver whose event is set, on a closed channel, ends its call.
woken_ends :
    (s : System) (i e : ℕ)
    → get_elem? s.tasks i ≡ some (waiting e)
    → s.events.flag e ≡ true
    → s.channel.closed ≡ true
    → get_elem? (step s (receives i)).tasks i ≡ some idle
unfolding step receive_from receive_once
woken_ends s i e at f h = rw (at, f) (closed_round i s.channel.queue s (waiting e) at h)

-- After any moves of senders, receivers and ends on a channel with one end of each kind, where no `close`
-- stands between its halves: if no sending end is left, or no receiving one, or the channel was closed,
-- then it is closed, every receiver that still waits has its event set, and its next round is the last:
-- it takes a message, or raises BrokenPipeError.
pub end_wakes :
    (n k i e : ℕ) (ms : List Move)
    → (run (start n k) ms).draining ≡ false
    → ((run (start n k) ms).channel.tx ≡ 0)
      ⊎ ((run (start n k) ms).channel.rx ≡ 0)
      ⊎ ((run (start n k) ms).channel.closed ≡ true)
    → get_elem? (run (start n k) ms).tasks i ≡ some (waiting e)
    → let s = run (start n k) ms in
      (s.channel.closed ≡ true)
      × (s.events.flag e ≡ true)
      × (get_elem? (step s (receives i)).tasks i ≡ some idle)
end_wakes n k i e ms d c at =
    let s = run (start n k) ms in
    let v = run-IsSound (start n k) ms (start-IsSound n k) in
    let h : s.channel.closed ≡ true = elim c [
      | inl t ↦ v.no_tx t
      | inr r ↦ elim r [ inl x ↦ v.no_rx x | inr y ↦ y ]
    ] in
    let f : s.events.flag e ≡ true = ground (arith, v.parked i e at, v.quiet h d) in
    (h, f, woken_ends s i e at f h)

-- What has been sent is what has been received, in this order, and what is queued.
pub unbounded_fifo :
    (n k : ℕ) (ms : List Move)
    → let s = run (start n k) ms in s.sent ≡ s.received ++ s.channel.queue
unbounded_fifo n k ms = (run-IsSound (start n k) ms (start-IsSound n k)).order
