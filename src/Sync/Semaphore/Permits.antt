-- ===== src/Sync/Semaphore/Permits.antt =====
-- No token of the semaphore is lost or made up, whatever the interleaving and the cancellations.
use native.Mathlib.Decide.{dec_lt}
use tonio.Prelude.{
  sym, ℕ, suc, ◌+◌, ◌-◌, ◌≤◌, ◌<◌, ◌≡◌, ◌⊎◌, refl, true, false, Option, some, List, [], ◌∷◌, arith,
  length, length-append, leb, get_elem?, set-get_elem?, total, total-get_elem?, count, inl, inr,
  Bool-cases,
}
use tonio.Sync.Waiters.{
  Events, set_event, drain, Phase, idle, holding, waiting, owns, holds, Move, call, attempt, wake,
  cancel, leave,
}
use tonio.Sync.Waiters.Counts.{
  Inv, Inv-permits, Inv-total, drain-Inv, holds-le-owns, start-Inv, waiting-queued,
}
use tonio.Sync.Waiters.Steps.{take-Inv, enqueue-Inv, wake-Inv, leave-Inv, refuse-Inv, give_up-Inv}
use tonio.Sync.Semaphore.{
  Semaphore, none_left, acquire, or_raise, release, System, start, step_from, step, run, abandon,
}

abbrev pub IsSound : ℕ → System → Type 0
IsSound n s = Inv s.semaphore.tokens s.semaphore.waiters s.events s.tasks n

start-IsSound : (n k : ℕ) → IsSound n (start n k)
unfolding start
start-IsSound n k = start-Inv n k

-- A release with the permit in hand.
release-Inv :
    (n : ℕ) (l : Semaphore) (es : Events) (ts : List Phase)
    → Inv l.tokens l.waiters es ts n
    → let r = release l es in Inv r.0.tokens r.0.waiters r.1 ts (suc n)
unfolding release
release-Inv n l es ts v = drain-Inv l.tokens l.waiters es ts n v

-- Where both counts fit, the test compares them.
none_left-leb : (a b : ℕ) → a < 2147483648 → b < 2147483648 → none_left a b ≡ leb a b
unfolding none_left
none_left-leb a b h k = ground (arith, h, k)

-- The counts fit in i32.
abbrev IsSmall : ℕ → System → Type 0
IsSmall n s = (n < 2147483648) × (length s.semaphore.waiters < 2147483648)

small_test :
    (n : ℕ) (s : System)
    → IsSound n s
    → IsSmall n s
    → none_left s.semaphore.tokens (length s.semaphore.waiters)
      ≡ leb s.semaphore.tokens (length s.semaphore.waiters)
small_test n s v (h, k) =
    none_left-leb s.semaphore.tokens (length s.semaphore.waiters) (omega (arith, v.tokens, h)) k

-- The test of `acquire` tells whether a token is free.
no_token :
    (n : ℕ) (s : System)
    → IsSound n s
    → IsSmall n s
    → none_left s.semaphore.tokens (length s.semaphore.waiters) ≡ true
    → s.semaphore.tokens ≡ 0
no_token n s v z h = elim (dec_lt 0 s.semaphore.tokens) [
  | yes free ↦ absurd (ground (arith, v.no_queue free, small_test n s v z, h))
  | no taken ↦ omega arith
]

module _ (n i : ℕ) (s : System) (at : get_elem? s.tasks i ≡ some idle) (v : IsSound n s)
    (z : IsSmall n s) where
  call-IsSound : IsSound n (step_from (some idle) call i s)
  unfolding step_from acquire
  call-IsSound = elim (Bool-cases (none_left s.semaphore.tokens (length s.semaphore.waiters))) [
    | inl h ↦ rw h (enqueue-Inv _ _ _ _ _ i at (no_token n s v z h) v)
    | inr h ↦ rw h (take-Inv _ _ _ _ _ i at (Inv-permits (ground (arith, h, small_test n s v z)) v))
  ]

  attempt-IsSound : IsSound n (step_from (some idle) attempt i s)
  unfolding step_from or_raise
  attempt-IsSound = elim (Bool-cases (none_left s.semaphore.tokens (length s.semaphore.waiters))) [
    | inl h ↦ rw (h, or_raise) (rw (set-get_elem? s.tasks i idle at) v)
    | inr h ↦
        rw (h, or_raise)
          (take-Inv _ _ _ _ _ i at (Inv-permits (ground (arith, h, small_test n s v z)) v))
  ]

cancel-IsSound :
    (n e i : ℕ) (s : System)
    → get_elem? s.tasks i ≡ some (waiting e)
    → IsSound n s
    → IsSound n (step_from (some (waiting e)) cancel i s)
unfolding step_from abandon set_event owns
cancel-IsSound n e i s at v = elim (Bool-cases (s.events.flag e)) [
  | inl h ↦
      let pos : n ≡ suc (n - 1) =
        ground
          (arith, h, v.tokens, total-get_elem? (owns s.events.flag) s.tasks i (waiting e) at) in
      rw h (
        Inv-total (sym pos) (release-Inv _ _ _ _ (refuse-Inv _ _ _ _ _ i e at h (Inv-total pos v))))
  | inr h ↦ rw h (give_up-Inv _ _ _ _ _ i e at h v)
]

leave-IsSound :
    (n i : ℕ) (s : System)
    → get_elem? s.tasks i ≡ some holding
    → IsSound n s
    → IsSound n (step_from (some holding) leave i s)
unfolding step_from owns
leave-IsSound n i s at v =
    let pos : n ≡ suc (n - 1) =
      omega (arith, v.tokens, total-get_elem? (owns s.events.flag) s.tasks i holding at) in
    Inv-total (sym pos) (release-Inv _ _ _ _ (leave-Inv _ _ _ _ _ i at (Inv-total pos v)))

step_from-IsSound :
    (n : ℕ) (p : Option Phase) (m : Move) (i : ℕ) (s : System)
    → get_elem? s.tasks i ≡ p
    → IsSound n s
    → IsSmall n s
    → IsSound n (step_from p m i s)
unfolding step_from
step_from-IsSound n (some idle) call i s at v z = call-IsSound n i s at v z
step_from-IsSound n (some idle) attempt i s at v z = attempt-IsSound n i s at v z
step_from-IsSound n (some (waiting e)) wake i s at v z = elim (Bool-cases (s.events.flag e)) [
  | inl h ↦ rw h (wake-Inv _ _ _ _ _ i e at h v)
  | inr h ↦ rw h v
]
step_from-IsSound n (some (waiting e)) cancel i s at v z = cancel-IsSound n e i s at v
step_from-IsSound n (some holding) leave i s at v z = leave-IsSound n i s at v
step_from-IsSound n _ m i s at v z = v

length-drain : (q : List ℕ) (es : Events) → length (drain q es).queue ≤ length q
unfolding drain
length-drain [] es = omega arith
length-drain (e ∷ q) es = ground (arith, length-drain q es)

-- A move queues one event at most.
length-step_from :
    (p : Option Phase) (m : Move) (i : ℕ) (s : System)
    → length (step_from p m i s).semaphore.waiters ≤ suc (length s.semaphore.waiters)
unfolding step_from acquire or_raise abandon release set_event
length-step_from (some idle) call i s =
    ground (arith, length-append s.semaphore.waiters (s.events.made ∷ []))
length-step_from (some idle) attempt i s =
    elim (Bool-cases (none_left s.semaphore.tokens (length s.semaphore.waiters))) [
      | inl h ↦ rw (h, or_raise) (omega arith)
      | inr h ↦ rw (h, or_raise) (omega arith)
    ]
length-step_from (some (waiting e)) wake i s = ground arith
length-step_from (some (waiting e)) cancel i s =
    ground (arith, length-drain s.semaphore.waiters s.events)
length-step_from (some holding) leave i s = omega (arith, length-drain s.semaphore.waiters s.events)
length-step_from _ m i s = omega arith

run-IsSound :
    (n : ℕ) (s : System) (ms : List (ℕ × Move))
    → n < 2147483648
    → length s.semaphore.waiters + length ms < 2147483648
    → IsSound n s
    → IsSound n (run s ms)
unfolding run step
run-IsSound n s [] h k v = v
run-IsSound n s ((i, m) ∷ ms) h k v =
    run-IsSound n (step s (i, m)) ms h
      (omega (arith, k, length-step_from (get_elem? s.tasks i) m i s))
      (step_from-IsSound n (get_elem? s.tasks i) m i s refl v (h, omega (arith, k)))

reached :
    (n k : ℕ) (ms : List (ℕ × Move))
    → n < 2147483648
    → length ms < 2147483648
    → IsSound n (run (start n k) ms)
unfolding start
reached n k ms h l = run-IsSound n (start n k) ms h (omega (arith, l)) (start-IsSound n k)

-- After any moves, fewer than 2 ^ 31, of any number of tasks that start idle on a semaphore of `n`
-- tokens, fewer than 2 ^ 31, cancelled waits included, the free tokens and the owned ones are `n`
-- together, at most `n` tasks are inside the `with` block, and no event is queued while a token is
-- free.
pub run_conserves :
    (n k : ℕ) (ms : List (ℕ × Move))
    → n < 2147483648
    → length ms < 2147483648
    → let s = run (start n k) ms in
      (s.semaphore.tokens + total (owns s.events.flag) s.tasks ≡ n)
      × (total holds s.tasks ≤ n)
      × ((s.semaphore.tokens ≡ 0) ⊎ (s.semaphore.waiters ≡ []))
run_conserves n k ms small few =
    let s = run (start n k) ms in
    let v = reached n k ms small few in
    (
      v.tokens,
      omega (arith, v.tokens, holds-le-owns s.events.flag s.tasks),
      elim (dec_lt 0 s.semaphore.tokens) [
        | yes free ↦ inr (v.no_queue free)
        | no taken ↦ inl (omega arith)
      ],
    )

-- After any such moves, a task that waits on an event not yet set has that event in the queue, once,
-- and all `n` tokens are owned.
pub run_spent :
    (n k : ℕ) (ms : List (ℕ × Move)) (i e : ℕ)
    → n < 2147483648
    → length ms < 2147483648
    → get_elem? (run (start n k) ms).tasks i ≡ some (waiting e)
    → (run (start n k) ms).events.flag e ≡ false
    → let s = run (start n k) ms in
      (count e s.semaphore.waiters ≡ 1) × (total (owns s.events.flag) s.tasks ≡ n)
run_spent n k ms i e small few at h =
    let s = run (start n k) ms in
    let v = reached n k ms small few in
    let c = waiting-queued _ _ _ _ _ i e at h v in (c.0, omega (arith, v.tokens, c.1))
