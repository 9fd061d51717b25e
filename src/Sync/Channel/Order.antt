-- ===== src/Sync/Channel/Order.antt =====
-- The bounded channel keeps the order of its messages and loses none.
use tonio.Prelude.{
  ℕ, ◌≤◌, ◌≡◌, refl, Option, none, some, List, [], ◌∷◌, ◌++◌, map, append_assoc, arith, length,
  length-append, total, total-append, total-le-length, ap, ◌∙◌, get_elem?, inl, inr, Bool-cases,
}
use tonio.Sync.Waiters.{Phase, idle, holding, waiting}
use tonio.Sync.Channel.{
  Entry, System, Move, sends, closes, receives, cancels, start, send, close, want_pull, pull_from,
  round, receive_from, cancel_from, step, run,
}
use mathlib.Core.List.{map-append}

abbrev pub messages : List Entry → List ℕ
messages = map (λ x. x.message)

-- Messages whose sender did not have to wait.
abbrev pub unawaited : Entry → ℕ
unawaited x = elim x.want_pull [ none ↦ 1 | some e ↦ 0 ]

pub record IsOrdered (s : System) : Type 0 where
  pub order : s.sent ≡ s.received ++ messages s.channel.queue
  pub counted : s.channel.len ≡ length s.channel.queue
  pub bounded : total unawaited s.channel.queue ≤ s.channel.size

unawaited-le-one : (x : Entry) → unawaited x ≤ 1
unawaited-le-one x = ground arith

-- A send that goes through appends its message; a full channel makes its sender wait.
send-IsOrdered : (s : System) (m : ℕ) → IsOrdered s → IsOrdered (step s (sends m))
unfolding step want_pull
send-IsOrdered s m v = elim (Bool-cases s.channel.closed) [
  | inl h ↦ rw (h, send) (record { order = v.order; counted = v.counted; bounded = v.bounded })
  | inr h ↦
      rw (h, send)
        (record {
          order = rw (v.order, map-append) (append_assoc s.received _ _);
          counted = rw length-append (omega (arith, v.counted));
          bounded = rw total-append (
              ground (
                arith,
                v.counted,
                v.bounded,
                total-le-length unawaited unawaited-le-one s.channel.queue,
              ));
        })
]

round-IsOrdered :
    (i : ℕ) (q : List Entry) (s : System)
    → s.channel.queue ≡ q
    → IsOrdered s
    → IsOrdered (round i (pull_from q s.channel s.events) s)
unfolding pull_from
round-IsOrdered i [] s e v = elim (Bool-cases s.channel.closed) [
  | inl h ↦ rw h (record { order = v.order; counted = v.counted; bounded = v.bounded })
  | inr h ↦ rw h (record { order = v.order; counted = v.counted; bounded = v.bounded })
]
round-IsOrdered i (x ∷ q) s e v = record {
  order = rw append_assoc (v.order ∙ ap (λ l. s.received ++ messages l) e);
  counted = omega (arith, v.counted, ap length e);
  bounded = omega (arith, v.bounded, ap (total unawaited) e);
}

receive-IsOrdered :
    (p : Option Phase) (i : ℕ) (s : System) → IsOrdered s → IsOrdered (receive_from p i s)
unfolding receive_from
receive-IsOrdered none i s v = v
receive-IsOrdered (some idle) i s v = round-IsOrdered i s.channel.queue s refl v
receive-IsOrdered (some holding) i s v = v
receive-IsOrdered (some (waiting e)) i s v = elim (Bool-cases (s.events.flag e)) [
  | inl h ↦ rw h (round-IsOrdered i s.channel.queue s refl v)
  | inr h ↦ rw h v
]

cancel-IsOrdered :
    (p : Option Phase) (i : ℕ) (s : System) → IsOrdered s → IsOrdered (cancel_from p i s)
unfolding cancel_from
cancel-IsOrdered none i s v = v
cancel-IsOrdered (some idle) i s v = v
cancel-IsOrdered (some holding) i s v = v
cancel-IsOrdered (some (waiting e)) i s v = record {
  order = v.order;
  counted = v.counted;
  bounded = v.bounded;
}

step-IsOrdered : (s : System) (m : Move) → IsOrdered s → IsOrdered (step s m)
unfolding step close
step-IsOrdered s (sends m) v = send-IsOrdered s m v
step-IsOrdered s closes v = elim (Bool-cases s.channel.closed) [
  | inl h ↦ rw h (record { order = v.order; counted = v.counted; bounded = v.bounded })
  | inr h ↦ rw h (record { order = v.order; counted = v.counted; bounded = v.bounded })
]
step-IsOrdered s (receives i) v = receive-IsOrdered (get_elem? s.tasks i) i s v
step-IsOrdered s (cancels i) v = cancel-IsOrdered (get_elem? s.tasks i) i s v

run-IsOrdered : (s : System) (ms : List Move) → IsOrdered s → IsOrdered (run s ms)
unfolding run
run-IsOrdered s [] v = v
run-IsOrdered s (m ∷ ms) v = run-IsOrdered (step s m) ms (step-IsOrdered s m v)

start-IsOrdered : (size k : ℕ) → IsOrdered (start size k)
unfolding start
start-IsOrdered size k = record { order = refl; counted = refl; bounded = omega arith }

-- After any sends, closes, receives and cancellations on a new channel, the messages sent are those
-- received, in that order, followed by those still queued; the length counter counts the queue; and
-- at most `size` queued messages were sent without making their sender wait.
pub run_fifo :
    (size k : ℕ) (ms : List Move)
    → let s = run (start size k) ms in
      (s.sent ≡ s.received ++ messages s.channel.queue)
      × (s.channel.len ≡ length s.channel.queue)
      × (total unawaited s.channel.queue ≤ s.channel.size)
run_fifo size k ms =
    let v = run-IsOrdered (start size k) ms (start-IsOrdered size k) in
    (v.order, v.counted, v.bounded)
