-- ===== src/Net/Socket/Connect.antt =====
-- `connect` of `_Socket` in tonio/_net/_socket.py, behind the resolution of the address.
use tonio.Prelude.{
  Option-cases, Bool-cases, inl, inr, ◌⊎◌, ap, ℕ, ◌≡◌, ◌≢◌, refl, Option, none, some, List, [], ◌∷◌,
  ◌++◌, arith, ◌==◌, if◌then◌else◌,
}
use tonio.Io.{Ready, writing, ScheduledIo, arm, clear, edge, shutdown}

-- The kernel's answers: to `connect`, to SO_ERROR, which it tells or fails to tell, and to `getpeername`.
pub data Answer : Type 0 where
  connects : Answer
  in_progress : Answer
  refuses : ℕ → Answer
  so_error : ℕ → Answer
  -- `getsockopt` itself raises, as on a socket that another task has closed
  so_fails : ℕ → Answer
  peer : Answer
  no_peer : Answer

pub data Phase : Type 0 where
  -- in `connect`
  trying : Phase
  -- suspended on the event in the slot
  parked : ℕ → Phase
  -- in `getsockopt(SO_ERROR)`
  checking : Phase
  -- in `getpeername`
  naming : Phase
  connected : Phase
  raised : ℕ → Phase

pub record Task : Type 0 where
  pub io : ScheduledIo
  pub phase : Phase
  pub asked : List Answer

pub data Move : Type 0 where
  answer : Answer → Move
  report : Ready → Move
  deregister : Move

abbrev armed : Option ℕ → Phase
armed none = checking
armed (some e) = parked e

-- The head of the `while True`.
enter : ScheduledIo → List Answer → Task
enter io asked =
    let (event, io') = arm writing io in record { io = io'; phase = armed event; asked = asked }

-- Each phase has its own call, and an answer to another call does not come.
answered : Phase → Answer → Task → Task
unfolding enter
answered trying connects t = record t { phase = connected; asked = t.asked ++ connects ∷ [] }
answered trying in_progress t = enter t.io (t.asked ++ in_progress ∷ [])
answered trying (refuses e) t = record t { phase = raised e; asked = t.asked ++ refuses e ∷ [] }
answered checking (so_error e) t =
    if e == 0
    then record t { phase = naming; asked = t.asked ++ so_error e ∷ [] }
    else record t { phase = raised e; asked = t.asked ++ so_error e ∷ [] }
answered checking (so_fails e) t = record t { phase = raised e; asked = t.asked ++ so_fails e ∷ [] }
answered naming peer t = record t { phase = connected; asked = t.asked ++ peer ∷ [] }
answered naming no_peer t = enter (clear writing t.io) (t.asked ++ no_peer ∷ [])
answered _ a t = t

resume : Option ℕ → Phase → Task → Task
unfolding enter
resume (some e) (parked p) t = if e == p then enter t.io t.asked else t
resume _ p t = t

step : Task → Move → Task
unfolding answered resume
step t (answer a) = answered t.phase a t
step t (report r) = let w = edge r t.io in resume w.1 t.phase (record t { io = w.2 })
step t deregister = let w = shutdown t.io in resume w.1 t.phase (record t { io = w.2 })

pub run : Task → List Move → Task
unfolding step
run t [] = t
run t (m ∷ ms) = run (step t m) ms

abbrev pub started : ScheduledIo → Task
started io = record { io = io; phase = trying; asked = [] }

-- What the answers so far say of a phase: after an immediate success nothing else was asked; the name
-- is asked for right after SO_ERROR said 0; and a connection that was in progress is reported only
-- after SO_ERROR said 0 and `getpeername` succeeded, the two last answers.
abbrev pub Explained : Phase → List Answer → Type 0
Explained naming xs = (ys : List Answer) × (xs ≡ ys ++ so_error 0 ∷ [])
Explained connected xs =
    (xs ≡ connects ∷ []) ⊎ ((ys : List Answer) × (xs ≡ (ys ++ so_error 0 ∷ []) ++ peer ∷ []))
Explained (raised e) xs =
    (xs ≡ refuses e ∷ [])
    ⊎ (((ys : List Answer) × (xs ≡ ys ++ so_error e ∷ []) × (e ≢ 0))
        ⊎ ((ys : List Answer) × (xs ≡ ys ++ so_fails e ∷ [])))
Explained trying xs = xs ≡ []
Explained checking xs = Unit
Explained (parked e) xs = Unit

enter-Explained :
    (io : ScheduledIo) (xs : List Answer) → Explained (enter io xs).phase (enter io xs).asked
unfolding enter
enter-Explained io xs = elim (Option-cases (arm writing io).0) [
  | inl e ↦ rw e tt
  | inr (p, e) ↦ rw e tt
]

answered-Explained :
    (p : Phase) (a : Answer) (t : Task)
    → t.phase ≡ p
    → Explained p t.asked
    → Explained (answered p a t).phase (answered p a t).asked
unfolding answered
answered-Explained trying connects t e h = inl (rw h refl)
answered-Explained trying in_progress t e h = enter-Explained _ _
answered-Explained trying (refuses n) t e h = inl (rw h refl)
answered-Explained checking (so_error n) t e h = elim (Bool-cases (n == 0)) [
  | inl z ↦ rw (z, answered) (t.asked, ap (λ k. t.asked ++ so_error k ∷ []) (ground (arith, z)))
  | inr z ↦ rw (z, answered) (inr (inl (t.asked, refl, ground (arith, z))))
]
answered-Explained checking (so_fails n) t e h = inr (inr (t.asked, refl))
answered-Explained naming peer t e h = inr (h.0, ap (λ l. l ++ peer ∷ []) h.1)
answered-Explained naming no_peer t e h = enter-Explained _ _
answered-Explained p a t e h = rw e h

resume-Explained :
    (w : Option ℕ) (p : Phase) (t : Task)
    → t.phase ≡ p
    → Explained p t.asked
    → Explained (resume w p t).phase (resume w p t).asked
unfolding resume
resume-Explained (some f) (parked p) t e h = elim (Bool-cases (f == p)) [
  | inl q ↦ rw (q, resume) (enter-Explained t.io t.asked)
  | inr q ↦ rw (q, resume, e) h
]
resume-Explained none p t e h = rw e h
resume-Explained (some f) p t e h = rw e h

run-Explained :
    (t : Task) (ms : List Move)
    → Explained t.phase t.asked
    → Explained (run t ms).phase (run t ms).asked
unfolding run step
run-Explained t [] h = h
run-Explained t (answer a ∷ ms) h =
    run-Explained (step t (answer a)) ms (answered-Explained t.phase a t refl h)
run-Explained t (report r ∷ ms) h =
    run-Explained (step t (report r)) ms (resume-Explained _ t.phase _ refl h)
run-Explained t (deregister ∷ ms) h =
    run-Explained (step t deregister) ms (resume-Explained _ t.phase _ refl h)

-- Whatever the kernel and the poller do, `connect` returns only if the kernel connected at once, or
-- if its two last answers were SO_ERROR 0 and a peer's name; it raises an error number only if
-- `connect` itself failed with it, being the only answer, or if it is the last SO_ERROR, not 0, or if
-- `getsockopt` failed with it, as the last answer.
pub connect_result :
    (io : ScheduledIo) (ms : List Move) → let t = run (started io) ms in Explained t.phase t.asked
connect_result io ms = run-Explained (started io) ms refl
