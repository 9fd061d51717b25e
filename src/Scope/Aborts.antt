-- ===== src/Scope/Aborts.antt =====
-- What `_exit` waits for, and which tasks a cancelled scope aborts.
use tonio.Prelude.{
  unset, ℕ, ◌+◌, ◌≤◌, ◌≡◌, ◌≢◌, refl, ap, subst, ◌∙◌, Bool, true, false, Option, none, some, List,
  [], ◌∷◌, ◌++◌, arith, ltb, ◌==◌, count, count-append, one_if, Bool-cases, inl, inr, if◌then◌else◌,
}
use tonio.Sync.Waiters.{new_event, set_event}
use tonio.Scope.{
  Scope, new, incr, track, spawn, returned, unwound, raised, wrapper, abort_all, exit_new,
  exit_from, exit, cancel, enter, leave, call, Move, entering, leaving, spawning, cancelling,
  calling, ending, step, run,
}
use tonio.Scope.Aborting.{count-unset, abort_all-false, abort_all-true}

-- No task is in the stack, or was aborted, twice, and all that were are made; and nothing is aborted
-- before `_exit`.
abbrev pub Sound : Scope → Type 0
Sound s =
    ((e : ℕ) → count e s.aborted + count e s.stack ≤ one_if (ltb e s.events.made))
    × (s.waiter ≡ none → s.aborted ≡ [])

count-abort_all :
    (c : Bool) (es : List ℕ) (s : Scope)
    → ((e : ℕ) → count e s.aborted + count e es ≤ one_if (ltb e s.events.made))
    → s.stack ≡ []
    → let t = abort_all c es s in
      (e : ℕ) → count e t.aborted + count e t.stack ≤ one_if (ltb e t.events.made)
count-abort_all false es s h n e =
    let same = abort_all-false es s in
    ground (
      arith,
      h e,
      ap (λ t. count e t.aborted) same,
      ap (λ t. t.stack) same,
      ap (λ t. t.events.made) same,
    )
count-abort_all true es s h n e =
    let (a, f, g, m, st, sd) = abort_all-true es s (λ d. ground (arith, h d)) in
    ground (
      arith,
      h e,
      ap (count e) (st ∙ n),
      ap (count e) a,
      count-append e s.aborted (unset s.events.flag es),
      count-unset s.events.flag e es,
    )

exit_from-Sound : (w : Option (List ℕ)) (s : Scope) → Sound s → Sound (exit_from w s).1
unfolding exit_from exit_new
exit_from-Sound (some es) s h = h
exit_from-Sound none s h =
    (count-abort_all s.cancelled s.stack (record s { stack = [] }) h.0 refl, λ w. absurd (cc w))

spawn-Sound : (s : Scope) → Sound s → Sound (spawn s)
unfolding spawn track new_event
spawn-Sound s h = elim (Bool-cases (ltb 1 s.consumed)) [
  | inl q ↦ rw q h
  | inr q ↦ rw q (λ e. ground (arith, h.0 e, count-append e s.stack (s.events.made ∷ [])), h.1)
]

incr-Sound : (from : ℕ) (s : Scope) → Sound s → Sound (incr from s).1
unfolding incr
incr-Sound from s h = elim (Bool-cases (s.consumed == from)) [ inl q ↦ rw q h | inr q ↦ rw q h ]

set-Sound : (e : ℕ) (s : Scope) → Sound s → Sound (record s { events = (set_event e s.events).1 })
unfolding set_event
set-Sound e s h = elim (Bool-cases (s.events.flag e)) [ inl q ↦ rw q h | inr q ↦ rw q h ]

step-Sound : (s : Scope) (m : Move) → Sound s → Sound (step s m)
unfolding step enter leave cancel call exit wrapper
step-Sound s entering h = incr-Sound 0 s h
step-Sound s leaving h = incr-Sound 1 s h
step-Sound s spawning h = spawn-Sound s h
step-Sound s cancelling h = h
step-Sound s calling h = exit_from-Sound s.waiter s h
step-Sound s (ending e returned) h = set-Sound e s h
step-Sound s (ending e unwound) h = set-Sound e s h
step-Sound s (ending e (raised n)) h = set-Sound e s h

run-Sound : (s : Scope) (ms : List Move) → Sound s → Sound (run s ms)
unfolding run
run-Sound s [] h = h
run-Sound s (m ∷ ms) h = run-Sound (step s m) ms (step-Sound s m h)

new-Sound : Sound new
unfolding new
new-Sound = (λ e. omega arith, λ w. refl)

-- Whatever happens to a scope, each task is aborted at most once.
pub aborted_once : (ms : List Move) (e : ℕ) → count e (run new ms).aborted ≤ 1
aborted_once ms e = ground (arith, (run-Sound new ms new-Sound).0 e)

-- What the first `_exit` does to a scope.
abbrev pub Exits : Scope → Option (List ℕ) × Scope → Type 0
Exits s r =
    (r.0 ≡ some s.stack)
    × (r.1.aborted ≡ (if s.cancelled then unset s.events.flag s.stack else []))
    × (s.cancelled ≡ false → r.1.events ≡ s.events)
    × ((e : ℕ) → s.cancelled ≡ true → count e s.stack ≢ 0 → r.1.events.flag e ≡ true)

exit_loop :
    (c : Bool) (s : Scope)
    → c ≡ s.cancelled
    → Sound s
    → s.aborted ≡ []
    → Exits s (
      some s.stack,
      record (abort_all c s.stack (record s { stack = [] })) { waiter = some s.stack },
    )
exit_loop false s q h n =
    let same = abort_all-false s.stack (record s { stack = [] }) in
    let choose = ap (λ c. if c then unset s.events.flag s.stack else []) q in
    (
      refl,
      ap (λ t. t.aborted) same ∙ n ∙ choose,
      λ z. ap (λ t. t.events) same,
      λ e z. absurd (cc (q, z)),
    )
exit_loop true s q h n =
    let (a, f, g, m, st, sd) =
      abort_all-true s.stack (record s { stack = [] }) (λ d. ground (arith, h.0 d)) in
    let choose = ap (λ c. if c then unset s.events.flag s.stack else []) q in
    let left = ap (λ l. l ++ unset s.events.flag s.stack) n in
    (refl, a ∙ left ∙ choose, λ z. absurd (cc (q, z)), λ e z k. g e k)

exit_from-Exits :
    (w : Option (List ℕ)) (s : Scope)
    → w ≡ none
    → Sound s
    → s.aborted ≡ []
    → Exits s (exit_from w s)
unfolding exit_from exit_new
exit_from-Exits (some es) s w h n = absurd (cc w)
exit_from-Exits none s w h n = exit_loop s.cancelled s refl h n

-- The first `scope()` waits for the events of all tracked tasks, in the order of their start. If the
-- scope was cancelled, exactly those that have not ended are aborted, and all of these events are set,
-- so that it does not wait; otherwise none is aborted and no event is touched.
pub call_aborts :
    (ms : List Move) → (run new ms).waiter ≡ none → Exits (run new ms) (call (run new ms))
unfolding call exit
call_aborts ms w =
    let h = run-Sound new ms new-Sound in
    exit_from-Exits (run new ms).waiter (run new ms) w h (h.1 w)

-- Moves one after the other.
pub run-append : (s : Scope) (ms ns : List Move) → run (run s ms) ns ≡ run s (ms ++ ns)
unfolding run
run-append s [] ns = refl
run-append s (m ∷ ms) ns = run-append (step s m) ms ns

-- The first exit of a scope in any state that moves lead to.
pub reached_aborts :
    (ms : List Move) (s : Scope)
    → run new ms ≡ s
    → s.waiter ≡ none
    → s.cancelled ≡ true
    → ((call s).0 ≡ some s.stack)
      × ((call s).1.aborted ≡ unset s.events.flag s.stack)
      × ((e : ℕ) → count e s.stack ≢ 0 → (call s).1.events.flag e ≡ true)
reached_aborts ms s h w c =
    let r = subst (λ t. Exits t (call t)) h (call_aborts ms (ap (λ t. t.waiter) h ∙ w)) in
    let chosen = ap (λ c. if c then unset s.events.flag s.stack else []) c in
    (r.0, r.1 ∙ chosen, λ e k. r.3 e c k)

-- The same for a scope that was not cancelled.
pub reached_waits :
    (ms : List Move) (s : Scope)
    → run new ms ≡ s
    → s.waiter ≡ none
    → s.cancelled ≡ false
    → ((call s).0 ≡ some s.stack) × ((call s).1.aborted ≡ []) × ((call s).1.events ≡ s.events)
reached_waits ms s h w c =
    let r = subst (λ t. Exits t (call t)) h (call_aborts ms (ap (λ t. t.waiter) h ∙ w)) in
    (r.0, r.1 ∙ ap (λ c. if c then unset s.events.flag s.stack else []) c, r.2 c)
