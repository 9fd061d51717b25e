-- ===== src/Sync/Channel/Ends/Wakes.antt =====
-- A closed channel has woken its receivers: an invariant of each move of the tasks.
use tonio.Prelude.{
  ℕ, ◌+◌, ◌≡◌, inl, inr, refl, ◌∙◌, Bool, true, false, Option, none, some, List, [], ◌∷◌, ◌++◌,
  arith, get_elem?, Bool-cases, if◌then◌else◌, leb,
}
use tonio.Sync.Waiters.{Events, new_event, Phase, idle, holding, waiting}
use tonio.Sync.Channel.{
  Entry, System, sends, closes, receives, cancels, new, want_pull, push, close, send, set_if,
  set_all, front, behind, Received, got, blocked, broken, pull_from, receive_once, receive_from,
  cancel_from, round, start, step,
}
use tonio.Sync.Channel as Channel
use tonio.Sync.Channel.Parked.{
  Parked, idle-Parked, wait-Parked, push-Parked, drain-Parked, made-Parked, set-Parked,
}

pub record Wakes (s : System) : Type 0 where
  pub parked : Parked s.tasks s.channel.waiters s.events
  pub quiet : s.channel.closed ≡ true → s.channel.waiters ≡ []

-- What `close` leaves, for the flag it finds.
abbrev with : System → Channel.Channel × Events → System
with s (c, es) = record s { channel = c; events = es }

closed-Wakes :
    (s : System) (b : Bool)
    → s.channel.closed ≡ b
    → Wakes s
    → Wakes (
        with s (
          if b then (s.channel, s.events) else (
            record s.channel { closed = true; waiters = [] },
            set_all s.channel.waiters s.events,
          )))
closed-Wakes s true h v = record { parked = v.parked; quiet = v.quiet }
closed-Wakes s false h v = record {
  parked = drain-Parked s.tasks s.channel.waiters s.events v.parked;
  quiet = λ c. refl;
}

pub close-Wakes : (s : System) → Wakes s → Wakes (step s closes)
unfolding step close
close-Wakes s v = closed-Wakes s s.channel.closed refl v

-- A push of an open channel, with the event that its sender waits on.
push-Wakes :
    (m : ℕ) (s : System) (b : Bool)
    → s.channel.closed ≡ false
    → Wakes s
    → let w : Option ℕ × Events =
        if b then (some s.events.made, new_event s.events) else (none, s.events) in
      let e : Entry = record { message = m; want_pull = w.0 } in
      Wakes (record s {
        channel = record s.channel {
          len = s.channel.len + 1;
          queue = s.channel.queue ++ e ∷ [];
          waiters = behind s.channel.waiters;
        };
        events = set_if (front s.channel.waiters) w.1;
        sent = s.sent ++ m ∷ [];
      })
push-Wakes m s true h v = record {
  parked =
      push-Parked s.tasks s.channel.waiters (new_event s.events)
        (made-Parked s.tasks s.channel.waiters s.events v.parked);
  quiet = λ c. cc (c, h);
}
push-Wakes m s false h v = record {
  parked = push-Parked s.tasks s.channel.waiters s.events v.parked;
  quiet = λ c. cc (c, h);
}

send-Wakes : (m : ℕ) (s : System) → Wakes s → Wakes (step s (sends m))
unfolding step send push want_pull
send-Wakes m s v = elim (Bool-cases s.channel.closed) [
  | inl h ↦ rw (h, send) (record { parked = v.parked; quiet = λ c. v.quiet h })
  | inr h ↦
      rw (h, send)
        (push-Wakes m (record s { channel = record s.channel { closed = false } })
          (leb s.channel.size s.channel.len) refl (record { parked = v.parked; quiet = λ c. cc c }))
]

-- The queue is empty, and the channel closed or not.
empty-Wakes :
    (i : ℕ) (s : System) (b : Bool)
    → s.channel.closed ≡ b
    → Wakes s
    → Wakes (
        round i
          (if b then (broken, s.channel, s.events) else (
            blocked s.events.made,
            record s.channel { waiters = s.channel.waiters ++ s.events.made ∷ [] },
            new_event s.events,
          ))
          s)
empty-Wakes i s true h v = record {
  parked = idle-Parked i s.tasks s.channel.waiters s.events v.parked;
  quiet = v.quiet;
}
empty-Wakes i s false h v = record {
  parked = wait-Parked i s.tasks s.channel.waiters s.events v.parked;
  quiet = λ c. cc (c, h);
}

pulled-Parked :
    (w : Option ℕ) (ts : List Phase) (ws : List ℕ) (es : Events)
    → Parked ts ws es
    → Parked ts ws (set_if w es)
unfolding set_if
pulled-Parked none ts ws es v = v
pulled-Parked (some d) ts ws es v = set-Parked d ts ws es v

round-Wakes :
    (i : ℕ) (q : List Entry) (s : System)
    → Wakes s
    → Wakes (round i (pull_from q s.channel s.events) s)
unfolding pull_from
round-Wakes i [] s v = empty-Wakes i s s.channel.closed refl v
round-Wakes i (x ∷ q) s v = record {
  parked =
      pulled-Parked x.want_pull _ s.channel.waiters s.events
        (idle-Parked i s.tasks s.channel.waiters s.events v.parked);
  quiet = v.quiet;
}

receive-Wakes : (p : Option Phase) (i : ℕ) (s : System) → Wakes s → Wakes (receive_from p i s)
unfolding receive_from receive_once
receive-Wakes none i s v = v
receive-Wakes (some idle) i s v = round-Wakes i s.channel.queue s v
receive-Wakes (some holding) i s v = v
receive-Wakes (some (waiting e)) i s v = elim (Bool-cases (s.events.flag e)) [
  | inl h ↦ rw h (round-Wakes i s.channel.queue s v)
  | inr h ↦ rw h v
]

cancel-Wakes : (p : Option Phase) (i : ℕ) (s : System) → Wakes s → Wakes (cancel_from p i s)
unfolding cancel_from
cancel-Wakes none i s v = v
cancel-Wakes (some idle) i s v = v
cancel-Wakes (some holding) i s v = v
cancel-Wakes (some (waiting e)) i s v = record {
  parked = idle-Parked i s.tasks s.channel.waiters s.events v.parked;
  quiet = v.quiet;
}

pub step-Wakes : (s : System) (m : Channel.Move) → Wakes s → Wakes (step s m)
unfolding step
step-Wakes s (sends m) v = send-Wakes m s v
step-Wakes s closes v = close-Wakes s v
step-Wakes s (receives i) v = receive-Wakes (get_elem? s.tasks i) i s v
step-Wakes s (cancels i) v = cancel-Wakes (get_elem? s.tasks i) i s v

round-closed :
    (i : ℕ) (q : List Entry) (s : System)
    → (round i (pull_from q s.channel s.events) s).channel.closed ≡ s.channel.closed
unfolding pull_from
round-closed i [] s = ground arith
round-closed i (x ∷ q) s = refl

receive-closed :
    (p : Option Phase) (i : ℕ) (s : System) → (receive_from p i s).channel.closed ≡ s.channel.closed
unfolding receive_from receive_once
receive-closed none i s = refl
receive-closed (some idle) i s = round-closed i s.channel.queue s
receive-closed (some holding) i s = refl
receive-closed (some (waiting e)) i s = ground (arith, round-closed i s.channel.queue s)

cancel-closed :
    (p : Option Phase) (i : ℕ) (s : System) → (cancel_from p i s).channel.closed ≡ s.channel.closed
unfolding cancel_from
cancel-closed none i s = refl
cancel-closed (some idle) i s = refl
cancel-closed (some holding) i s = refl
cancel-closed (some (waiting e)) i s = refl

-- A channel stays closed.
pub closed_stays :
    (s : System) (m : Channel.Move) → s.channel.closed ≡ true → (step s m).channel.closed ≡ true
unfolding step close
closed_stays s (sends m) h = rw (h, send) refl
closed_stays s closes h = ground (arith, h)
closed_stays s (receives i) h = receive-closed (get_elem? s.tasks i) i s ∙ h
closed_stays s (cancels i) h = cancel-closed (get_elem? s.tasks i) i s ∙ h

pub closes-closed : (s : System) → (step s closes).channel.closed ≡ true
unfolding step close
closes-closed s = ground arith
