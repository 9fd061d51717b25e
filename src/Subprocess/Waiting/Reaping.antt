-- ===== src/Subprocess/Waiting/Reaping.antt =====
-- `wait` gives what the child has ended with, and closes the descriptor once.
use tonio.Prelude.{
  suc, ◌≡◌, ◌≢◌, refl, ap, ◌∙◌, Bool, true, false, Option, none, some, List, [], ◌∷◌, if◌then◌else◌,
}
use tonio.Subprocess.Waiting.{
  Status, Phase, outside, alive, parked, blocked, attribute_error, returned, Process, started, seen,
  close_from, close_pidfd, poll, popen_wait, reap, arm, polled, Move, exits, polls, cancels,
  cancel_step, begins, arms, resumes, poll_step, arm_step, exit_step, has_ended, begin_step,
  resume_step, step, run,
}
use tonio.Subprocess.Waiting.Polling.{Fits, seen-known, seen-none, poll-Fits, poll-rest}

-- Popen.wait of a child that has ended.
reaped-Fits :
    (b : Bool) (s : Status) (p : Process)
    → p.pidfd ≡ b
    → p.exited ≡ some s
    → Fits p
    → Fits (close_from b (record p { returncode = some s; phase = returned s }))
unfolding close_from
reaped-Fits true s p q x v = record {
  known = λ t z. x ∙ z;
  closed = λ z y. cc y;
  counted = ap suc (v.counted ∙ ap (λ b. if b then 0 else 1) q);
  ended = λ t z. (cc z, refl);
  unseen = λ z. absurd (cc z);
  safe = (λ z. cc z, λ z. cc z);
}
reaped-Fits false s p q x v = record {
  known = λ t z. x ∙ z;
  closed = λ z y. cc y;
  counted = v.counted;
  ended = λ t z. (cc z, q);
  unseen = λ z. absurd (cc z);
  safe = (λ z. cc z, λ z. cc z);
}

popen_wait-Fits :
    (o : Option Status) (p : Process)
    → seen p.returncode p.exited ≡ o
    → o ≢ none
    → Fits p
    → Fits (popen_wait o p)
unfolding popen_wait close_pidfd
popen_wait-Fits none p q h v = absurd (h refl)
popen_wait-Fits (some s) p q h v =
    reaped-Fits p.pidfd s p refl (seen-known p.returncode p.exited v.known s q) v

reap-Fits : (p : Process) → p.exited ≢ none → Fits p → Fits (reap p)
unfolding reap
reap-Fits p h v =
    popen_wait-Fits (seen p.returncode p.exited) p refl
      (λ z. h (seen-none p.returncode p.exited z).1) v

-- A task that waits or starts to wait; `wait` never finds the descriptor gone.
park-Fits : (p : Process) → Fits p → Fits (record p { phase = parked })
park-Fits p v = record {
  known = v.known;
  closed = v.closed;
  counted = v.counted;
  ended = λ s z. absurd (cc z);
  unseen = λ z. absurd (cc z);
  safe = (λ z. cc z, λ z. cc z);
}

arm-Fits :
    (b ready : Bool) (p : Process)
    → p.pidfd ≡ b
    → p.returncode ≡ none
    → (ready ≡ true → p.exited ≢ none)
    → Fits p
    → Fits (arm b ready p)
unfolding arm
arm-Fits false ready p q n h v = absurd (v.closed q n)
arm-Fits true true p q n h v = reap-Fits p (h refl) v
arm-Fits true false p q n h v = park-Fits p v

polled-Fits :
    (o : Option Status) (p : Process)
    → p.returncode ≡ o
    → (o ≢ none → p.pidfd ≡ false)
    → Fits p
    → Fits (polled o p)
unfolding polled
polled-Fits none p q f v = record {
  known = v.known;
  closed = v.closed;
  counted = v.counted;
  ended = λ s z. absurd (cc z);
  unseen = λ z. q;
  safe = (λ z. cc z, λ z. cc z);
}
polled-Fits (some s) p q f v = record {
  known = v.known;
  closed = v.closed;
  counted = v.counted;
  ended = λ t z. (q ∙ cc z, f (λ y. cc y));
  unseen = λ z. absurd (cc z);
  safe = (λ z. cc z, λ z. cc z);
}

ended_some : (o : Option Status) → has_ended o ≡ true → o ≢ none
unfolding has_ended
ended_some none h z = cc h
ended_some (some s) h z = cc z

if_true : (b c : Bool) → (if b then c else false) ≡ true → c ≡ true
if_true true c h = h
if_true false c h = absurd (cc h)

begin_step-Fits : (f : Phase) (p : Process) → p.phase ≡ f → Fits p → Fits (begin_step f p)
unfolding begin_step
begin_step-Fits outside p q v =
    let (r, x, f, g) = poll-rest p in
    polled-Fits (poll p).returncode (poll p) refl (λ h. g (λ z. h (r ∙ z)))
      (poll-Fits p (λ z. cc (q, z)) v)
begin_step-Fits alive p q v = v
begin_step-Fits parked p q v = v
begin_step-Fits blocked p q v = v
begin_step-Fits attribute_error p q v = v
begin_step-Fits (returned s) p q v =
    let (r, x, f, g) = poll-rest p in
    polled-Fits (poll p).returncode (poll p) refl (λ h. g (λ z. h (r ∙ z)))
      (poll-Fits p (λ z. cc (q, z)) v)

poll_step-Fits : (f : Phase) (p : Process) → p.phase ≡ f → Fits p → Fits (poll_step f p)
unfolding poll_step
poll_step-Fits outside p q v = poll-Fits p (λ z. cc (q, z)) v
poll_step-Fits (returned s) p q v = poll-Fits p (λ z. cc (q, z)) v
poll_step-Fits alive p q v = v
poll_step-Fits parked p q v = v
poll_step-Fits blocked p q v = v
poll_step-Fits attribute_error p q v = v

arm_step-Fits :
    (f : Phase) (ready : Bool) (p : Process) → p.phase ≡ f → Fits p → Fits (arm_step f ready p)
unfolding arm_step
arm_step-Fits alive ready p q v =
    arm-Fits p.pidfd (if ready then has_ended p.exited else false) p refl (v.unseen q)
      (λ h. ended_some p.exited (if_true ready (has_ended p.exited) h)) v
arm_step-Fits outside ready p q v = v
arm_step-Fits parked ready p q v = v
arm_step-Fits blocked ready p q v = v
arm_step-Fits attribute_error ready p q v = v
arm_step-Fits (returned s) ready p q v = v

choose-Fits :
    (a : Bool) (p : Process) → has_ended p.exited ≡ a → Fits p → Fits (if a then reap p else p)
choose-Fits true p h v = reap-Fits p (ended_some p.exited h) v
choose-Fits false p h v = v

resume_step-Fits : (f : Phase) (p : Process) → Fits p → Fits (resume_step f p)
unfolding resume_step
resume_step-Fits outside p v = v
resume_step-Fits alive p v = v
resume_step-Fits blocked p v = v
resume_step-Fits attribute_error p v = v
resume_step-Fits (returned s) p v = v
resume_step-Fits parked p v = choose-Fits (has_ended p.exited) p refl v

cancel_step-Fits : (f : Phase) (p : Process) → Fits p → Fits (cancel_step f p)
unfolding cancel_step
cancel_step-Fits outside p v = v
cancel_step-Fits alive p v = v
cancel_step-Fits blocked p v = v
cancel_step-Fits attribute_error p v = v
cancel_step-Fits (returned s) p v = v
cancel_step-Fits parked p v = record {
  known = v.known;
  closed = v.closed;
  counted = v.counted;
  ended = λ s z. absurd (cc z);
  unseen = λ z. absurd (cc z);
  safe = (λ z. cc z, λ z. cc z);
}

exit_step-Fits :
    (o : Option Status) (s : Status) (p : Process) → p.exited ≡ o → Fits p → Fits (exit_step o s p)
unfolding exit_step
exit_step-Fits (some t) s p q v = v
exit_step-Fits none s p q v = record {
  known = λ t z. absurd (cc (q, v.known t z));
  closed = v.closed;
  counted = v.counted;
  ended = v.ended;
  unseen = v.unseen;
  safe = v.safe;
}

step-Fits : (p : Process) (m : Move) → Fits p → Fits (step p m)
unfolding step
step-Fits p (exits s) v = exit_step-Fits p.exited s p refl v
step-Fits p polls v = poll_step-Fits p.phase p refl v
step-Fits p begins v = begin_step-Fits p.phase p refl v
step-Fits p (arms ready) v = arm_step-Fits p.phase ready p refl v
step-Fits p resumes v = resume_step-Fits p.phase p v
step-Fits p cancels v = cancel_step-Fits p.phase p v

run-Fits : (p : Process) (ms : List Move) → Fits p → Fits (run p ms)
unfolding run
run-Fits p [] v = v
run-Fits p (m ∷ ms) v = run-Fits (step p m) ms (step-Fits p m v)

-- Where one task uses the process, it and the child move in any way, cancelled waits included: `wait` never blocks the thread and
-- never finds its descriptor gone, the descriptor is closed at most once, and when `wait` returns it
-- is closed and the result is what the child has ended with.
pub wait_result :
    (ms : List Move)
    → let p = run started ms in
      (p.phase ≢ blocked)
      × (p.phase ≢ attribute_error)
      × (p.closes ≡ (if p.pidfd then 0 else 1))
      × ((s : Status) → p.phase ≡ returned s → (p.exited ≡ some s) × (p.pidfd ≡ false))
unfolding started
wait_result ms =
    let v = run-Fits started ms (record {
      known = λ s z. absurd (cc z);
      closed = λ z. absurd (cc z);
      counted = refl;
      ended = λ s z. absurd (cc z);
      unseen = λ z. absurd (cc z);
      safe = (λ z. cc z, λ z. cc z);
    }) in
    (v.safe.0, v.safe.1, v.counted, λ s z. let (r, f) = v.ended s z in (v.known s r, f))
