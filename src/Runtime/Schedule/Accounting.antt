-- ===== src/Runtime/Schedule/Accounting.antt =====
-- The tokens of speculation are accounted for, so a push wakes a worker where all are idle.
use tonio.Prelude.{
  ℕ, zero, suc, ◌+◌, ◌%◌, ◌≡◌, ◌≤◌, ◌<◌, refl, ap, ◌∙◌, true, false, Option, none, some, List, [],
  ◌∷◌, get_elem?, set, ◌==◌, one_if, total, total-set, total-get_elem?, total-replicate, arith,
  get_elem?-set_self, Bool-cases, inl, inr,
}
use tonio.Runtime.Schedule.{
  idle_count, add_from, subtract_from, adds, subtracts, scanning, Worker, System, start, may_wake,
  find_from, miss_from, return_from, wake_from, call_from, force_from, go_from, Move, finds, misses,
  returns, wakes, calls, forces, goes, step, run,
}
use tonio.Runtime.Schedule.Tokens.{
  token, waker, flag, odd, IsSound, find-IsSound, miss-IsSound, return-IsSound,
}
use tonio.Runtime.Schedule.Visits.{go-IsSound, wake-IsSound}

call-IsSound :
    (o : Option (Option ℕ)) (k : ℕ) (s : System)
    → get_elem? s.producers k ≡ o
    → IsSound 0 s
    → IsSound 0 (call_from o k s)
unfolding call_from may_wake
call-IsSound (some none) k s at v = elim (Bool-cases (may_wake s)) [
  | inl h ↦
      rw (h, call_from)
        (record {
          tokens = ground (arith, v.tokens, h, total-set waker s.producers k none (some 0) at);
          flags = v.flags;
          calm = v.calm;
        })
  | inr h ↦ rw (h, call_from) v
]
call-IsSound (some (some j)) k s at v = v
call-IsSound none k s at v = v

force-IsSound :
    (o : Option (Option ℕ)) (k : ℕ) (s : System)
    → get_elem? s.producers k ≡ o
    → IsSound 0 s
    → IsSound 0 (force_from o k s)
unfolding force_from
force-IsSound (some none) k s at v = elim (Bool-cases (idle_count s == 0)) [
  | inl h ↦ rw (h, force_from) v
  | inr h ↦
      rw (h, force_from)
        (record {
          tokens = omega (arith, v.tokens, total-set waker s.producers k none (some 0) at);
          flags = v.flags;
          calm = v.calm;
        })
]
force-IsSound (some (some j)) k s at v = v
force-IsSound none k s at v = v

-- A move of worker `i`, where there is one.
worker_step :
    (o : Option Worker) (i : ℕ) (s : System)
    → get_elem? s.workers i ≡ o
    → IsSound 0 s
    → IsSound 0 (find_from o i s)
      × IsSound 0 (miss_from o i s)
      × IsSound 0 (return_from o i s)
      × IsSound 0 (wake_from o i s)
unfolding find_from miss_from return_from wake_from
worker_step none i s at v = (v, v, v, v)
worker_step (some w) i s at v = (
  find-IsSound w.place w.idle i s at v,
  miss-IsSound w.place w.idle i s at v,
  return-IsSound w.place w.idle i s at v,
  wake-IsSound w.place w.idle i s at v,
)

producer_step :
    (o : Option (Option ℕ)) (k : ℕ) (s : System)
    → get_elem? s.producers k ≡ o
    → IsSound 0 s
    → IsSound 0 (go_from o k s)
unfolding go_from
producer_step none k s at v = v
producer_step (some none) k s at v = v
producer_step (some (some j)) k s at v = go-IsSound (get_elem? s.workers j) j k s refl at v

add-IsSound : (n : ℕ) (s : System) → s.adding ≡ n → IsSound 0 s → IsSound 0 (add_from n s)
unfolding add_from
add-IsSound zero s h v = v
add-IsSound (suc n) s h v = record {
  tokens = v.tokens;
  flags = omega (arith, v.flags, h);
  calm = v.calm;
}

subtract-IsSound : (n : ℕ) (s : System) → s.owed ≡ n → IsSound 0 s → IsSound 0 (subtract_from n s)
unfolding subtract_from
subtract-IsSound zero s h v = v
subtract-IsSound (suc n) s h v = record {
  tokens = v.tokens;
  flags = omega (arith, v.flags, h);
  calm = v.calm;
}

step-IsSound : (s : System) (m : Move) → IsSound 0 s → IsSound 0 (step s m)
unfolding step
step-IsSound s (finds i) v = (worker_step (get_elem? s.workers i) i s refl v).0
step-IsSound s (misses i) v = (worker_step (get_elem? s.workers i) i s refl v).1
step-IsSound s (returns i) v = (worker_step (get_elem? s.workers i) i s refl v).2
step-IsSound s (wakes i) v = (worker_step (get_elem? s.workers i) i s refl v).3
step-IsSound s (calls k) v = call-IsSound (get_elem? s.producers k) k s refl v
step-IsSound s (forces k) v = force-IsSound (get_elem? s.producers k) k s refl v
step-IsSound s (goes k) v = producer_step (get_elem? s.producers k) k s refl v
step-IsSound s adds v = add-IsSound s.adding s refl v
step-IsSound s subtracts v = subtract-IsSound s.owed s refl v

run-IsSound : (s : System) (ms : List Move) → IsSound 0 s → IsSound 0 (run s ms)
unfolding run
run-IsSound s [] v = v
run-IsSound s (m ∷ ms) v = run-IsSound (step s m) ms (step-IsSound s m v)

start-IsSound : (n k : ℕ) → IsSound 0 (start n k)
unfolding start
start-IsSound n k =
    let w : Worker = record { place = scanning false; idle = false } in
    record {
      tokens = omega (arith, total-replicate token w n refl, total-replicate waker none k refl);
      flags = omega (arith, total-replicate flag w n refl);
      calm = omega (arith, total-replicate odd w n refl);
    }

idle_count-wraps :
    (s : System)
    → IsSound 0 s
    → (idle_count s + s.adding) % 18446744073709551616
      ≡ (total flag s.workers + s.owed) % 18446744073709551616
unfolding idle_count
idle_count-wraps s v = omega (arith, v.flags)

-- However the workers scan, go idle, park and come back, and however producers wake them: the count of
-- speculation is that of the tokens held, one by each worker that speculates or is in `wake_idle`, one
-- by each that was claimed while it was idle, and one by each producer in `wake_idle`. And the flags set
-- are as many as the times that the count of idle workers was counted up or is still to be, less those that
-- it was counted down or is still to be; so the count, once what is still to be done is done, is that of the
-- flags, modulo 2 ^ 64.
pub speculation_accounted :
    (n k : ℕ) (ms : List Move)
    → let s = run (start n k) ms in
      (s.speculation ≡ total token s.workers + total waker s.producers)
      × (s.added + s.adding ≡ total flag s.workers + s.owed + s.subtracted)
      × ((idle_count s + s.adding) % 18446744073709551616
          ≡ (total flag s.workers + s.owed) % 18446744073709551616)
speculation_accounted n k ms =
    let v = run-IsSound (start n k) ms (start-IsSound n k) in
    (omega (arith, v.tokens), v.flags, idle_count-wraps (run (start n k) ms) v)

-- Where each flag that was set or cleared has been counted, the count of idle workers, which wraps, is
-- that of the flags.
idle_count-flags :
    (s : System)
    → IsSound 0 s
    → s.adding ≡ 0
    → s.owed ≡ 0
    → total flag s.workers < 18446744073709551616
    → idle_count s ≡ total flag s.workers
unfolding idle_count
idle_count-flags s v a o w = omega (arith, v.flags)

-- After any moves: where no worker and no producer holds a token and all flags that were set or cleared
-- have been counted, but a worker has its flag set, and fewer than 2 ^ 64 have, a producer that calls
-- `unpark_one` goes on to look for a flag to claim.
pub rest_wakes :
    (n k i p : ℕ) (w : Worker) (ms : List Move)
    → total token (run (start n k) ms).workers ≡ 0
    → total waker (run (start n k) ms).producers ≡ 0
    → (run (start n k) ms).adding ≡ 0
    → (run (start n k) ms).owed ≡ 0
    → total flag (run (start n k) ms).workers < 18446744073709551616
    → get_elem? (run (start n k) ms).workers i ≡ some w
    → w.idle ≡ true
    → get_elem? (run (start n k) ms).producers p ≡ some none
    → get_elem? (step (run (start n k) ms) (calls p)).producers p ≡ some (some 0)
unfolding step call_from may_wake
rest_wakes n k i p w ms t u a o few at e free =
    let s = run (start n k) ms in
    let v = run-IsSound (start n k) ms (start-IsSound n k) in
    let open_ : may_wake s ≡ true = passes s (omega (arith, v.tokens, t, u)) (
      omega (
        arith,
        idle_count-flags s v a o few,
        ap one_if e,
        total-get_elem? flag s.workers i w at,
      )) in
    ap (λ o. get_elem? (call_from o p s).producers p) free
    ∙ called p s open_
    ∙ get_elem?-set_self s.producers p (some 0) none free
  where
    passes : (s : System) → s.speculation ≡ 0 → 1 ≤ idle_count s → may_wake s ≡ true
    passes s h c = ground (arith, h, c)

    called :
        (p : ℕ) (s : System)
        → may_wake s ≡ true
        → get_elem? (call_from (some none) p s).producers p
          ≡ get_elem? (set s.producers p (some 0)) p
    called p s h = rw (h, call_from) refl
