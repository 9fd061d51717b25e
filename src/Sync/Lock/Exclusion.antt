-- ===== src/Sync/Lock/Exclusion.antt =====
-- Whatever the interleaving and the cancellations, the lock has one owner at most, and is taken
-- exactly while it has one.
use tonio.Prelude.{
  count, true, ℕ, ◌≤◌, ◌≡◌, ◌⊎◌, refl, false, not, Option, some, List, [], ◌∷◌, arith, one_if,
  get_elem?, set-get_elem?, total, inl, inr, Bool-cases,
}
use tonio.Sync.Waiters.{
  Events, set_event, Phase, idle, holding, waiting, owns, holds, Move, call, attempt, wake, cancel,
  leave,
}
use tonio.Sync.Waiters.Counts.{
  waiting-queued, Inv, Inv-permits, holds-le-owns, start-Inv, drain-Inv,
}
use tonio.Sync.Waiters.Steps.{take-Inv, enqueue-Inv, wake-Inv, leave-Inv, refuse-Inv, give_up-Inv}
use tonio.Sync.Lock.{
  Lock, acquire, try_acquire, release, System, start, step_from, step, run, abandon,
}

abbrev pub IsSound : System → Type 0
IsSound s = Inv (one_if (not s.lock.state)) s.lock.waiters s.events s.tasks 1

pub start-IsSound : (n : ℕ) → IsSound (start n)
unfolding start
start-IsSound n = start-Inv 1 n

-- A release with the permit in hand.
release-Inv :
    (l : Lock) (es : Events) (ts : List Phase)
    → Inv (one_if (not l.state)) l.waiters es ts 0
    → let r = release l es in Inv (one_if (not r.0.state)) r.0.waiters r.1 ts 1
unfolding release
release-Inv l es ts v = elim (Bool-cases l.state) [
  | inl h ↦
      Inv-permits (ground (arith, h))
        (drain-Inv 0 l.waiters es ts 0 (Inv-permits (ground (arith, h)) v))
  | inr h ↦ absurd (ground (arith, h, v.tokens))
]

call-IsSound :
    (i : ℕ) (s : System)
    → get_elem? s.tasks i ≡ some idle
    → IsSound s
    → IsSound (step_from (some idle) call i s)
unfolding step_from acquire
call-IsSound i s at v = elim (Bool-cases s.lock.state) [
  | inl h ↦ rw h (enqueue-Inv _ _ _ _ _ i at refl (Inv-permits (ground (arith, h)) v))
  | inr h ↦ rw h (take-Inv _ _ _ _ _ i at (Inv-permits (ground (arith, h)) v))
]

attempt-IsSound :
    (i : ℕ) (s : System)
    → get_elem? s.tasks i ≡ some idle
    → IsSound s
    → IsSound (step_from (some idle) attempt i s)
unfolding step_from try_acquire
attempt-IsSound i s at v = elim (Bool-cases s.lock.state) [
  | inl h ↦ rw (h, set-get_elem? s.tasks i idle at) (Inv-permits (ground (arith, h)) v)
  | inr h ↦ rw h (take-Inv _ _ _ _ _ i at (Inv-permits (ground (arith, h)) v))
]

cancel-IsSound :
    (e i : ℕ) (s : System)
    → get_elem? s.tasks i ≡ some (waiting e)
    → IsSound s
    → IsSound (step_from (some (waiting e)) cancel i s)
unfolding step_from abandon set_event
cancel-IsSound e i s at v = elim (Bool-cases (s.events.flag e)) [
  | inl h ↦ rw h (release-Inv _ _ _ (refuse-Inv _ _ _ _ _ i e at h v))
  | inr h ↦ rw h (give_up-Inv _ _ _ _ _ i e at h v)
]

step_from-IsSound :
    (p : Option Phase) (m : Move) (i : ℕ) (s : System)
    → get_elem? s.tasks i ≡ p
    → IsSound s
    → IsSound (step_from p m i s)
unfolding step_from
step_from-IsSound (some idle) call i s at v = call-IsSound i s at v
step_from-IsSound (some idle) attempt i s at v = attempt-IsSound i s at v
step_from-IsSound (some (waiting e)) wake i s at v = elim (Bool-cases (s.events.flag e)) [
  | inl h ↦ rw h (wake-Inv _ _ _ _ _ i e at h v)
  | inr h ↦ rw h v
]
step_from-IsSound (some (waiting e)) cancel i s at v = cancel-IsSound e i s at v
step_from-IsSound (some holding) leave i s at v = release-Inv _ _ _ (leave-Inv _ _ _ _ _ i at v)
step_from-IsSound _ m i s at v = v

pub run-IsSound : (s : System) (ms : List (ℕ × Move)) → IsSound s → IsSound (run s ms)
unfolding run step
run-IsSound s [] v = v
run-IsSound s ((i, m) ∷ ms) v =
    run-IsSound (step s (i, m)) ms (step_from-IsSound (get_elem? s.tasks i) m i s refl v)

-- After any moves of any number of tasks that start idle on a new lock, cancelled waits included, at
-- most one task is inside the `with` block.
pub run_exclusive : (n : ℕ) (ms : List (ℕ × Move)) → total holds (run (start n) ms).tasks ≤ 1
run_exclusive n ms =
    let v = run-IsSound (start n) ms (start-IsSound n) in
    omega (arith, v.tokens, holds-le-owns (run (start n) ms).events.flag (run (start n) ms).tasks)

-- After any such moves, the lock's flag is set exactly while one task owns it, being inside the
-- block or waiting on an event that is set, and while the flag is clear no event is queued.
pub run_accounted :
    (n : ℕ) (ms : List (ℕ × Move))
    → let s = run (start n) ms in
      (one_if s.lock.state ≡ total (owns s.events.flag) s.tasks)
      × ((s.lock.state ≡ true) ⊎ (s.lock.waiters ≡ []))
run_accounted n ms =
    let v = run-IsSound (start n) ms (start-IsSound n) in
    (
      ground (arith, v.tokens),
      elim (Bool-cases (run (start n) ms).lock.state) [
        | inl h ↦ inl h
        | inr h ↦ inr (v.no_queue (ground (arith, h)))
      ],
    )

-- After any such moves, a task that waits on an event not yet set has that event in the queue, once,
-- and the lock is taken: its owner's release will find the event.
pub run_queued :
    (n : ℕ) (ms : List (ℕ × Move)) (i e : ℕ)
    → get_elem? (run (start n) ms).tasks i ≡ some (waiting e)
    → (run (start n) ms).events.flag e ≡ false
    → let l = (run (start n) ms).lock in (count e l.waiters ≡ 1) × (l.state ≡ true)
run_queued n ms i e at h =
    let s = run (start n) ms in
    let v = run-IsSound (start n) ms (start-IsSound n) in
    let c =
      waiting-queued (one_if (not s.lock.state)) s.lock.waiters s.events s.tasks 1 i e at h v in
    (c.0, ground (arith, c.1))
