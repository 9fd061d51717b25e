-- ===== src/Net/Socket/Loop.antt =====
-- What every loop of the socket's methods does with the kernel's answers and the poller's reports.
use tonio.Prelude.{
  ℕ, ◌≡◌, refl, Option, none, some, List, [], ◌∷◌, ◌++◌, inl, inr, Bool-cases, Option-cases, ◌==◌,
}
use tonio.Io.{Direction, ScheduledIo, arm}
use tonio.Net.Socket.{
  Answer, returns, interrupted, would_block, fails, Phase, first, calling, parked, finished, raised,
  Task, Move, answer, report, deregister, arms, clears, enter, answered, answered_first, resume,
  step_from, step, run,
}

module _ {R : Type 0} where
  -- Only answers after which the code tries again.
  abbrev pub Retries : List (Answer R) → Type 0
  Retries [] = Unit
  Retries (interrupted ∷ xs) = Retries xs
  Retries (would_block ∷ xs) = Retries xs
  Retries (returns v ∷ xs) = ⊥
  Retries (fails e ∷ xs) = ⊥

  -- Such answers, and the one that ended the call.
  abbrev pub Ends : Answer R → List (Answer R) → Type 0
  Ends a xs = (rs : List (Answer R)) × Retries rs × (xs ≡ rs ++ a ∷ [])

  -- What the answers so far are, by the phase.
  abbrev pub Explained : Phase R → List (Answer R) → Type 0
  Explained first xs = Retries xs
  Explained calling xs = Retries xs
  Explained (parked e) xs = Retries xs
  Explained (finished v) xs = Ends (returns v) xs
  Explained (raised e) xs = Ends (fails e) xs

  Retries-append : (xs ys : List (Answer R)) → Retries xs → Retries ys → Retries (xs ++ ys)
  Retries-append [] ys h k = k
  Retries-append (interrupted ∷ xs) ys h k = Retries-append xs ys h k
  Retries-append (would_block ∷ xs) ys h k = Retries-append xs ys h k
  Retries-append (returns v ∷ xs) ys h k = absurd h
  Retries-append (fails e ∷ xs) ys h k = absurd h

  enter-Explained :
      (d : Direction) (io : ScheduledIo) (xs : List (Answer R))
      → Retries xs
      → Explained (enter d io xs).phase (enter d io xs).asked
  unfolding enter
  enter-Explained d io xs h = elim (Option-cases (arm d io).0) [
    | inl e ↦ rw e h
    | inr (p, e) ↦ rw e h
  ]

  answered-Explained :
      (d : Direction) (a : Answer R) (t : Task R)
      → Retries t.asked
      → Explained (answered d a t).phase (answered d a t).asked
  unfolding answered
  answered-Explained d (returns v) t h = (t.asked, h, refl)
  answered-Explained d (fails e) t h = (t.asked, h, refl)
  answered-Explained d interrupted t h = enter-Explained d _ _ (Retries-append t.asked _ h tt)
  answered-Explained d would_block t h = enter-Explained d _ _ (Retries-append t.asked _ h tt)

  answered_first-Explained :
      (d : Direction) (a : Answer R) (t : Task R)
      → Retries t.asked
      → Explained (answered_first d a t).phase (answered_first d a t).asked
  unfolding answered_first
  answered_first-Explained d (returns v) t h = (t.asked, h, refl)
  answered_first-Explained d (fails e) t h = (t.asked, h, refl)
  answered_first-Explained d interrupted t h = enter-Explained d _ _ (Retries-append t.asked _ h tt)
  answered_first-Explained d would_block t h = enter-Explained d _ _ (Retries-append t.asked _ h tt)

  resume-Explained :
      (d : Direction) (w : Option ℕ) (t : Task R) (p : Phase R)
      → t.phase ≡ p
      → Explained p t.asked
      → Explained (resume d w t p).phase (resume d w t p).asked
  unfolding resume
  resume-Explained d (some w) t (parked p) e h = elim (Bool-cases (w == p)) [
    | inl q ↦ rw (q, resume) (enter-Explained d t.io t.asked h)
    | inr q ↦ rw (q, resume, e) h
  ]
  resume-Explained d none t p e h = rw e h
  resume-Explained d (some w) t p e h = rw e h

  step_from-Explained :
      (d : Direction) (p : Phase R) (m : Move R) (t : Task R)
      → t.phase ≡ p
      → Explained p t.asked
      → Explained (step_from d p m t).phase (step_from d p m t).asked
  unfolding step_from
  step_from-Explained d p (report r) t e h = resume-Explained d _ _ p e h
  step_from-Explained d p deregister t e h = resume-Explained d _ _ p e h
  step_from-Explained d p (arms f) t e h = rw e h
  step_from-Explained d p (clears f) t e h = rw e h
  step_from-Explained d first (answer a) t e h = answered_first-Explained d a t h
  step_from-Explained d calling (answer a) t e h = answered-Explained d a t h
  step_from-Explained d p (answer a) t e h = rw e h

  run-Explained :
      (d : Direction) (t : Task R) (ms : List (Move R))
      → Explained t.phase t.asked
      → Explained (run d t ms).phase (run d t ms).asked
  unfolding run step
  run-Explained d t [] h = h
  run-Explained d t (m ∷ ms) h =
      run-Explained d (step d t m) ms (step_from-Explained d t.phase m t refl h)

  -- Whatever the kernel and the poller do, a loop entered with nothing asked has, when it returns a
  -- value, got that value as the last answer, and when it raises, that error; all answers before it
  -- were refusals after which the code tried again, and so are all answers of a loop still going.
  pub loop_result :
      (d : Direction) (io : ScheduledIo) (ms : List (Move R))
      → let t = run d (enter d io []) ms in Explained t.phase t.asked
  loop_result d io ms = run-Explained d (enter d io []) ms (enter-Explained d io [] tt)

  -- The same for a method that makes its call once before the loop.
  pub first_result :
      (d : Direction) (io : ScheduledIo) (ms : List (Move R))
      → let t = run d (record { io = io; phase = first; asked = [] }) ms in
        Explained t.phase t.asked
  first_result d io ms = run-Explained d (record { io = io; phase = first; asked = [] }) ms tt
