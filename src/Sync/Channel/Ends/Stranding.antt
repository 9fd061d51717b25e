-- ===== src/Sync/Channel/Ends/Stranding.antt =====
-- Whom the last drop of a receiver does not wake: a sender that waits for its message to be pulled.
use tonio.Prelude.{
  ℕ, ◌≡◌, ◌<◌, refl, Bool, true, false, Option, none, some, List, [], ◌∷◌, arith, elem, get_elem?,
  leb, ◌||◌, Bool-cases, inl, inr, ◌==◌,
}
use tonio.Sync.Waiters.{Events, new_event, Phase, idle, holding, waiting}
use tonio.Sync.Channel.{
  System, sends, closes, receives, cancels, want_pull, push, close, send, set_if, set_all, front,
  behind, cancel_from, step,
}
use tonio.Sync.Channel.Parked.{set_event-flag, set_all-flag, set_all-made, set_event-made}
use tonio.Sync.Channel.Ends.{
  Ends, Move, uses, adds_tx, adds_rx, drops_tx, drops_rx, close_last, end_step, end_run,
}
use tonio.Sync.Channel.Ends.Wakes.{closed_stays, closes-closed}
use tonio.Sync.Channel.Ends.Closing.{last-closed}

-- Whether a task receives at some point.
abbrev is_receive : Move → Bool
is_receive (uses (receives i)) = true
is_receive _ = false

abbrev pub takes : List Move → Bool
takes [] = false
takes (m ∷ ms) = is_receive m || takes ms

-- An event that was made, is not set, and does not stand in the deque of the receivers.
abbrev Lone : ℕ → List ℕ → Events → Type 0
Lone d ws es = (d < es.made) × (es.flag d ≡ false) × (elem d ws ≡ false)

set_if-Lone :
    (d : ℕ) (ws : List ℕ) (es : Events) → Lone d ws es → Lone d (behind ws) (set_if (front ws) es)
unfolding set_if
set_if-Lone d [] es v = v
set_if-Lone d (e ∷ ws) es (lt, f, n) = (
  ground (arith, lt, set_event-made e es),
  ground (arith, f, n, set_event-flag e d es),
  ground (arith, n),
)

new-Lone : (d : ℕ) (ws : List ℕ) (es : Events) → Lone d ws es → Lone d ws (new_event es)
unfolding new_event
new-Lone d ws es (lt, f, n) = (omega arith, ground arith, n)

all-Lone : (d : ℕ) (ws : List ℕ) (es : Events) → Lone d ws es → Lone d [] (set_all ws es)
all-Lone d ws es (lt, f, n) =
    (ground (arith, lt, set_all-made ws es), ground (arith, f, n, set_all-flag d ws es), refl)

close-Lone :
    (d : ℕ) (s : System)
    → Lone d s.channel.waiters s.events
    → Lone d (step s closes).channel.waiters (step s closes).events
unfolding step close
close-Lone d s v = elim (Bool-cases s.channel.closed) [
  | inl h ↦ simp h v
  | inr h ↦ simp h (all-Lone d s.channel.waiters s.events v)
]

send-Lone :
    (d m : ℕ) (s : System)
    → Lone d s.channel.waiters s.events
    → Lone d (step s (sends m)).channel.waiters (step s (sends m)).events
unfolding step push want_pull
send-Lone d m s v = elim (Bool-cases s.channel.closed) [
  | inl h ↦ rw (h, send) v
  | inr h ↦ elim (Bool-cases (leb s.channel.size s.channel.len)) [
    | inl k ↦
        rw (h, send, k)
          (set_if-Lone d s.channel.waiters (new_event s.events)
            (new-Lone d s.channel.waiters s.events v))
    | inr k ↦ rw (h, send, k) (set_if-Lone d s.channel.waiters s.events v)
  ]
]

cancel-Lone :
    (d : ℕ) (p : Option Phase) (i : ℕ) (s : System)
    → Lone d s.channel.waiters s.events
    → Lone d (cancel_from p i s).channel.waiters (cancel_from p i s).events
unfolding cancel_from
cancel-Lone d none i s v = v
cancel-Lone d (some idle) i s v = v
cancel-Lone d (some holding) i s v = v
cancel-Lone d (some (waiting e)) i s v = v

last-Lone :
    (d n : ℕ) (s : System)
    → Lone d s.channel.waiters s.events
    → Lone d (close_last n s).channel.waiters (close_last n s).events
unfolding close_last
last-Lone d n s v = elim (Bool-cases (n == 1)) [ inl h ↦ rw h (close-Lone d s v) | inr h ↦ rw h v ]

cancelled :
    (d i : ℕ) (s : System)
    → Lone d s.channel.waiters s.events
    → Lone d (step s (cancels i)).channel.waiters (step s (cancels i)).events
unfolding step
cancelled d i s v = cancel-Lone d (get_elem? s.tasks i) i s v

dropped : (n : ℕ) (s : System) → n ≡ 1 → (close_last n s).channel.closed ≡ true
unfolding close_last
dropped n s h = ground (arith, h, closes-closed s)

run-Lone :
    (d : ℕ) (s : Ends) (ms : List Move)
    → takes ms ≡ false
    → Lone d s.system.channel.waiters s.system.events
    → s.system.channel.closed ≡ true
    → let s' = end_run s ms in (s'.system.channel.closed ≡ true) × (s'.system.events.flag d ≡ false)
unfolding end_run end_step
run-Lone d s [] t v h = (h, v.1)
run-Lone d s (uses (sends m) ∷ ms) t v h =
    run-Lone d (end_step s (uses (sends m))) ms t (send-Lone d m s.system v)
      (closed_stays s.system (sends m) h)
run-Lone d s (uses closes ∷ ms) t v h =
    run-Lone d (end_step s (uses closes)) ms t (close-Lone d s.system v)
      (closed_stays s.system closes h)
run-Lone d s (uses (receives i) ∷ ms) t v h = absurd (ground arith)
run-Lone d s (uses (cancels i) ∷ ms) t v h =
    run-Lone d (end_step s (uses (cancels i))) ms t (cancelled d i s.system v)
      (closed_stays s.system (cancels i) h)
run-Lone d s (adds_tx ∷ ms) t v h = run-Lone d (end_step s adds_tx) ms t v h
run-Lone d s (adds_rx ∷ ms) t v h = run-Lone d (end_step s adds_rx) ms t v h
run-Lone d s (drops_tx ∷ ms) t v h =
    run-Lone d (end_step s drops_tx) ms t (last-Lone d s.tx s.system v)
      (last-closed s.tx s.system h)
run-Lone d s (drops_rx ∷ ms) t v h =
    run-Lone d (end_step s drops_rx) ms t (last-Lone d s.rx s.system v)
      (last-closed s.rx s.system h)

full_push :
    (m : ℕ) (s : System)
    → s.channel.closed ≡ false
    → leb s.channel.size s.channel.len ≡ true
    → s.channel.waiters ≡ []
    → Lone s.events.made (step s (sends m)).channel.waiters (step s (sends m)).events
unfolding step push want_pull new_event set_if
full_push m s h k w = rw (h, send, k, w) (omega arith, ground arith, refl)

-- A task sends on a full, open channel on which no receiver waits, and waits on the event that is made
-- for it; then the only receiver is dropped. The channel is closed from then on, but however the tasks
-- and ends move, without a receive, that event is not set: the sender does not go on.
pub send_strands :
    (s : Ends) (m : ℕ) (ms : List Move)
    → s.system.channel.closed ≡ false
    → leb s.system.channel.size s.system.channel.len ≡ true
    → s.system.channel.waiters ≡ []
    → s.rx ≡ 1
    → takes ms ≡ false
    → let s' = end_run (end_step (end_step s (uses (sends m))) drops_rx) ms in
      (s'.system.channel.closed ≡ true) × (s'.system.events.flag s.system.events.made ≡ false)
unfolding end_step
send_strands s m ms h k w one t =
    let sent = step s.system (sends m) in
    run-Lone s.system.events.made _ ms t
      (last-Lone s.system.events.made s.rx sent (full_push m s.system h k w))
      (dropped s.rx sent one)
