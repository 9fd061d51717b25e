-- ===== src/Net/Socket/Waking.antt =====
-- A loop that is parked, alone in its direction, is woken.
use tonio.Prelude.{
  ℕ, ◌≡◌, refl, ◌∙◌, Bool, true, false, ◌&&◌, Option, none, some, List, [], ◌∷◌, ◌++◌, arith, inl,
  inr, Bool-cases, ◌==◌,
}
use tonio.Io.{
  Ready, Direction, reading, writing, ScheduledIo, clear, shows, slot, arm, edge, shutdown, woken,
}
use tonio.Io.Wakes.{edge-shown, edge-hidden, shutdown-woken}
use tonio.Net.Socket.{
  Answer, returns, interrupted, would_block, fails, Phase, first, calling, parked, Task, Move,
  answer, report, deregister, arms, clears, enter, answered, answered_first, resume, step_from,
  step, run,
}

abbrev other : Direction → Direction → Bool
other reading reading = false
other writing writing = false
other d f = true

others-slot :
    (d f : Direction) (io : ScheduledIo) → other d f ≡ true → slot d (arm f io).1 ≡ slot d io
unfolding arm
others-slot reading reading io h = cc h
others-slot writing writing io h = cc h
others-slot reading writing io h = ground arith
others-slot writing reading io h = ground arith

clear-slot : (d f : Direction) (io : ScheduledIo) → slot d (clear f io) ≡ slot d io
unfolding clear
clear-slot reading f io = ground arith
clear-slot writing f io = ground arith

module _ {R : Type 0} where
  -- No other task arms the direction of the loop.
  abbrev keeps_off : Direction → Move R → Bool
  keeps_off d (arms f) = other d f
  keeps_off d m = true

  abbrev pub alone : Direction → List (Move R) → Bool
  alone d [] = true
  alone d (m ∷ ms) = keeps_off d m && alone d ms

  -- A parked task's event stands in the slot.
  abbrev pub Slotted : Direction → Task R → Type 0
  Slotted d t = (e : ℕ) → t.phase ≡ parked e → slot d t.io ≡ some e

  enter-Slotted :
      (d : Direction) (io : ScheduledIo) (xs : List (Answer R)) → Slotted d (enter d io xs)
  unfolding enter arm
  enter-Slotted reading io xs e h = ground arith
  enter-Slotted writing io xs e h = ground arith

  answer-Slotted :
      (d : Direction) (p : Phase R) (a : Answer R) (t : Task R)
      → t.phase ≡ p
      → Slotted d t
      → Slotted d (step_from d p (answer a) t)
  unfolding step_from answered answered_first
  answer-Slotted d first (returns v) t q h = λ e k. absurd (cc k)
  answer-Slotted d first (fails v) t q h = λ e k. absurd (cc k)
  answer-Slotted d first interrupted t q h = enter-Slotted d t.io (t.asked ++ interrupted ∷ [])
  answer-Slotted d first would_block t q h = enter-Slotted d _ (t.asked ++ would_block ∷ [])
  answer-Slotted d calling (returns v) t q h = λ e k. absurd (cc k)
  answer-Slotted d calling (fails v) t q h = λ e k. absurd (cc k)
  answer-Slotted d calling interrupted t q h = enter-Slotted d t.io (t.asked ++ interrupted ∷ [])
  answer-Slotted d calling would_block t q h = enter-Slotted d _ (t.asked ++ would_block ∷ [])
  answer-Slotted d p a t q h = h

  resume-Slotted :
      (d : Direction) (w : Option ℕ) (t : Task R) (p : Phase R)
      → t.phase ≡ p
      → (w ≡ none → Slotted d t)
      → ((e f : ℕ) → w ≡ some f → p ≡ parked e → f ≡ e)
      → Slotted d (resume d w t p)
  unfolding resume
  resume-Slotted d none t p q h same = h refl
  resume-Slotted d (some f) t (parked e) q h same = elim (Bool-cases (f == e)) [
    | inl k ↦ rw (k, resume) (enter-Slotted d t.io t.asked)
    | inr k ↦ absurd (ground (arith, same e f refl refl, k))
  ]
  resume-Slotted d (some f) t p q h same = λ e k. absurd (cc)

  -- A wake-up of its own event takes a parked task to the head of the loop.
  resume_wakes :
      (d : Direction) (w : Option ℕ) (e : ℕ) (t : Task R) (p : Phase R)
      → p ≡ parked e
      → w ≡ some e
      → (arm d t.io).0 ≡ none
      → (resume d w t p).phase ≡ calling
  unfolding resume enter
  resume_wakes d w e t p q h a = ground arith

  report-Slotted :
      (d : Direction) (p : Phase R) (r : Ready) (t : Task R)
      → t.phase ≡ p
      → Slotted d t
      → Slotted d (step_from d p (report r) t)
  unfolding step_from
  report-Slotted d p r t q h = elim (Bool-cases (shows d r)) [
    | inl k ↦
        let (w, _) = edge-shown d r t.io k in
        resume-Slotted d (woken d (edge r t.io)) (record t { io = (edge r t.io).2 }) p q
          (λ n e k'. absurd (cc (w, n, h e k'))) (λ e f n k'. cc (n, w, h e (q ∙ k')))
    | inr k ↦
        let (w, s) = edge-hidden d r t.io k in
        resume-Slotted d (woken d (edge r t.io)) (record t { io = (edge r t.io).2 }) p q
          (λ n e k'. s ∙ h e k') (λ e f n k'. absurd (cc (w, n)))
  ]

  deregister-Slotted :
      (d : Direction) (p : Phase R) (t : Task R)
      → t.phase ≡ p
      → Slotted d t
      → Slotted d (step_from d p deregister t)
  unfolding step_from
  deregister-Slotted d p t q h =
      let (w, _) = shutdown-woken d t.io in
      resume-Slotted d (woken d (shutdown t.io)) (record t { io = (shutdown t.io).2 }) p q
        (λ n e k'. absurd (cc (w, n, h e k'))) (λ e f n k'. cc (n, w, h e (q ∙ k')))

  step_from-Slotted :
      (d : Direction) (p : Phase R) (m : Move R) (t : Task R)
      → keeps_off d m ≡ true
      → t.phase ≡ p
      → Slotted d t
      → Slotted d (step_from d p m t)
  unfolding step_from
  step_from-Slotted d p (answer a) t k q h = answer-Slotted d p a t q h
  step_from-Slotted d p (report r) t k q h = report-Slotted d p r t q h
  step_from-Slotted d p deregister t k q h = deregister-Slotted d p t q h
  step_from-Slotted d p (arms f) t k q h = λ e z. others-slot d f t.io k ∙ h e z
  step_from-Slotted d p (clears f) t k q h = λ e z. clear-slot d f t.io ∙ h e z

  run-Slotted :
      (d : Direction) (t : Task R) (ms : List (Move R))
      → alone d ms ≡ true
      → Slotted d t
      → Slotted d (run d t ms)
  unfolding run step
  run-Slotted d t [] k h = h
  run-Slotted d t (m ∷ ms) k h =
      run-Slotted d (step d t m) ms (ground (arith, k))
        (step_from-Slotted d t.phase m t (ground (arith, k)) refl h)

  -- However a loop got to be parked by answers, reports, and what other tasks do at the descriptor,
  -- where none of them arms the direction of the loop: the next report that shows the direction, and
  -- the deregistering of the descriptor, takes the loop on to the system call.
  pub loop_wakes :
      (d : Direction) (io : ScheduledIo) (ms : List (Move R)) (e : ℕ) (r : Ready)
      → alone d ms ≡ true
      → (run d (enter d io []) ms).phase ≡ parked e
      → shows d r ≡ true
      → let t = run d (enter d io []) ms in
        ((step d t (report r)).phase ≡ calling) × ((step d t deregister).phase ≡ calling)
  unfolding step step_from
  loop_wakes d io ms e r k at h =
      let t = run d (enter d io []) ms in
      let s = run-Slotted d (enter d io []) ms k (enter-Slotted d io []) e at in
      let (w, a) = edge-shown d r t.io h in
      let (w', a') = shutdown-woken d t.io in
      (
        resume_wakes d (woken d (edge r t.io)) e (record t { io = (edge r t.io).2 }) t.phase at
            (w ∙ s) a,
        resume_wakes d (woken d (shutdown t.io)) e (record t { io = (shutdown t.io).2 }) t.phase at
            (w' ∙ s) a',
      )
