-- ===== src/Fd/Writing.antt =====
-- `FdStream.send_all` writes the data once, in order, under its lock, and `Fd.close` closes once.
use tonio.Prelude.{
  ℕ, zero, suc, ◌+◌, ◌≡◌, refl, sym, ap, ◌∙◌, Bool, true, false, Option, none, some, List, [], ◌∷◌,
  ◌++◌, arith, length, take, drop, take-add, take-all, ltb, ◌==◌, inl, inr, Bool-cases,
  Option-cases,
}
use tonio.Io.{writing, ScheduledIo, arm, clear, edge, shutdown}
use tonio.Fd.{
  Fd, open_fd, close, close_times, Answer, wrote, interrupted, would_block, broken_pipe, fails,
  Phase, calling, parked, finished, file_closed, locked_out, resource_broken, raised, Task, Move,
  answer, report, deregister, enter, go_on, answered, resume, step_from, run, send_all,
}

-- What a phase says of the lock and of the bytes written.
abbrev pub Holds : Phase → List ℕ → Bool → List ℕ → Type 0
Holds calling data' lock written = lock ≡ true
Holds (parked e) data' lock written = lock ≡ true
Holds finished data' lock written = (lock ≡ false) × (written ≡ data')
Holds file_closed data' lock written = written ≡ []
Holds locked_out data' lock written = (lock ≡ true) × (written ≡ [])
Holds resource_broken data' lock written = lock ≡ false
Holds (raised e) data' lock written = lock ≡ false

pub record Sound (data' : List ℕ) (t : Task) : Type 0 where
  pub prefix : t.written ≡ take t.sent data'
  pub phase_holds : Holds t.phase data' t.lock_w t.written

enter-Sound :
    (data' : List ℕ) (t : Task)
    → t.lock_w ≡ true
    → t.written ≡ take t.sent data'
    → Sound data' (enter t)
unfolding enter
enter-Sound data' t l p = elim (Option-cases (arm writing t.io).0) [
  | inl h ↦ record { prefix = p; phase_holds = rw h l }
  | inr (e, h) ↦ record { prefix = p; phase_holds = rw h l }
]

go_on-Sound :
    (data' : List ℕ) (t : Task)
    → t.lock_w ≡ true
    → t.written ≡ take t.sent data'
    → Sound data' (go_on data' t)
unfolding go_on
go_on-Sound data' t l p = elim (Bool-cases (ltb t.sent (length data'))) [
  | inl h ↦ rw h (enter-Sound data' t l p)
  | inr h ↦
      rw h
        (record { prefix = p; phase_holds = (refl, p ∙ take-all t.sent data' (ground (arith, h))) })
]

answered-Sound :
    (data' : List ℕ) (a : Answer) (t : Task)
    → t.lock_w ≡ true
    → t.written ≡ take t.sent data'
    → Sound data' (answered data' a t)
unfolding answered
answered-Sound data' (wrote n) t l p =
    go_on-Sound data'
      (record t { sent = t.sent + n; written = t.written ++ take n (drop t.sent data') }) l
      (ap (λ w. w ++ take n (drop t.sent data')) p ∙ sym (take-add t.sent n data'))
answered-Sound data' interrupted t l p = enter-Sound data' t l p
answered-Sound data' would_block t l p =
    enter-Sound data' (record t { io = clear writing t.io }) l p
answered-Sound data' broken_pipe t l p = record { prefix = p; phase_holds = refl }
answered-Sound data' (fails e) t l p = record { prefix = p; phase_holds = refl }

-- A wake-up touches neither the lock nor the data.
resume-Sound :
    (data' : List ℕ) (w : Option ℕ) (p : Phase) (t : Task)
    → t.phase ≡ p
    → Sound data' t
    → Holds p data' t.lock_w t.written
    → Sound data' (resume w p t)
unfolding resume
resume-Sound data' (some f) (parked e) t q v h = elim (Bool-cases (f == e)) [
  | inl k ↦ rw (k, resume) (enter-Sound data' t h v.prefix)
  | inr k ↦ rw (k, resume) v
]
resume-Sound data' none p t q v h = v
resume-Sound data' (some f) p t q v h = v

step_from-Sound :
    (data' : List ℕ) (p : Phase) (m : Move) (t : Task)
    → t.phase ≡ p
    → Holds p data' t.lock_w t.written
    → Sound data' t
    → Sound data' (step_from data' p m t)
unfolding step_from
step_from-Sound data' p (report r) t q h v =
    resume-Sound data' (edge r t.io).1 p (record t { io = (edge r t.io).2 }) q
      (record { prefix = v.prefix; phase_holds = v.phase_holds }) h
step_from-Sound data' p deregister t q h v =
    resume-Sound data' (shutdown t.io).1 p (record t { io = (shutdown t.io).2 }) q
      (record { prefix = v.prefix; phase_holds = v.phase_holds }) h
step_from-Sound data' calling (answer a) t q h v = answered-Sound data' a t h v.prefix
step_from-Sound data' p (answer a) t q h v = v

run-Sound :
    (data' : List ℕ) (t : Task) (ms : List Move) → Sound data' t → Sound data' (run data' t ms)
unfolding run
run-Sound data' t [] v = v
run-Sound data' t (m ∷ ms) v =
    run-Sound data' (step_from data' t.phase m t) ms
      (step_from-Sound data' t.phase m t refl v.phase_holds v)

send_all-Sound :
    (is_closed lock : Bool) (data' : List ℕ) (io : ScheduledIo)
    → Sound data' (send_all is_closed lock data' io)
unfolding send_all
send_all-Sound true lock data' io = record { prefix = refl; phase_holds = refl }
send_all-Sound false true data' io = record { prefix = refl; phase_holds = (refl, refl) }
send_all-Sound false false data' io =
    go_on-Sound data' (record { io = io; lock_w = true; phase = calling; sent = 0; written = [] })
      refl refl

-- Whatever the kernel and the poller do, `FdStream.send_all` has written the first `sent` bytes of the
-- data. It has the lock while it goes on, and has given it back when it has returned, with all of
-- the data written, or has failed in a write; on a closed file or a lock that is taken it writes
-- nothing, and leaves a lock that is taken.
pub fd_send_all_result :
    (is_closed lock : Bool) (data' : List ℕ) (io : ScheduledIo) (ms : List Move)
    → let t = run data' (send_all is_closed lock data' io) ms in
      (t.written ≡ take t.sent data') × Holds t.phase data' t.lock_w t.written
fd_send_all_result is_closed lock data' io ms =
    let v = run-Sound data' _ ms (send_all-Sound is_closed lock data' io) in
    (v.prefix, v.phase_holds)

close_times-dropped :
    (n k : ℕ)
    → let f : Fd = record { fd = none; os_closed = k ∷ []; deregistered = 1 } in close_times n f ≡ f
unfolding close_times close
close_times-dropped zero k = refl
close_times-dropped (suc n) k = close_times-dropped n k

-- However often a descriptor is closed, also by its finaliser, it is deregistered once and its number
-- goes to `os.close` once.
pub fd_closed_once :
    (n k : ℕ)
    → let f = close_times (suc n) (open_fd k) in
      (f.fd ≡ none) × (f.os_closed ≡ k ∷ []) × (f.deregistered ≡ 1)
unfolding close_times close open_fd
fd_closed_once n k = rw (close_times-dropped n k) (refl, refl, refl)
