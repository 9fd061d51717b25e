-- ===== src/Events/Holding.antt =====
-- What the second half of `clear` does to a waiter of several events.
use tonio.Prelude.{
  ℕ, zero, suc, ◌+◌, ◌≤◌, ◌<◌, ◌≡◌, refl, Bool, true, false, ◌||◌, Option, none, some, List, [],
  ◌∷◌, ◌++◌, arith, update, ◌==◌, one_if, if◌then◌else◌, count, count-append, elem, ltb, ltb→lt,
}
use tonio.Events.{
  Suspension, build_sentinel, decrement, resume_from, error_from, suspend_from, System, new, strike,
  wake, error, hold, wake_all, hold_all, notify_from, unnotify_from, add_waker, register,
  rem_stale_wakers, Move, sets, notifies, clears, unnotifies, waiters, registers, resumes, errors,
  step, run,
}
use tonio.Events.Sound.{IsSound}
use tonio.Events.Waking.{step-IsSound, new-IsSound}

-- An event that is set, with nothing under way and nobody waiting.
abbrev at_rest : Bool → (ℕ → Suspension) → ℕ → List ℕ → System
at_rest d f m hs = record {
  flag = true;
  watchers = [];
  dirty = d;
  notifying = 0;
  holding = 0;
  suspensions = f;
  made = m;
  handles = hs;
}

-- A waiter of two events is registered between the halves of a `clear`. Then both its events are set, and
-- its coroutine is not resumed.
pub held_sleeps :
    (d : Bool) (f : ℕ → Suspension) (m : ℕ) (hs : List ℕ)
    → count m hs ≡ 0
    → let t =
        run
          (at_rest d f m hs)
          (clears ∷ registers 2 ∷ unnotifies ∷ sets ∷ notifies ∷ resumes m ∷ []) in
      (t.flag ≡ true) × (count m t.handles ≡ 0)
unfolding run step register add_waker build_sentinel unnotify_from hold_all hold suspend_from strike
    notify_from wake_all wake resume_from decrement
held_sleeps d f m hs h = (ground (arith, h), ground (arith, h))

abbrev pub spent_from : Option ℕ → Bool → Bool
spent_from none c = c
spent_from (some n) c = n == 0

-- Whether a suspension cannot be resumed any more.
abbrev pub spent : Suspension → Bool
spent p = spent_from p.sentinel p.consumed

record Once (s : System) : Type 0 where
  fresh : (i : ℕ) → s.made ≤ i → count i s.handles ≡ 0
  counted : (i : ℕ) → count i s.handles ≡ one_if (spent (s.suspensions i))

resumed-spent :
    (o : Option ℕ) (p : Suspension)
    → p.sentinel ≡ o
    → one_if (resume_from o p).0 + one_if (spent p) ≡ one_if (spent (resume_from o p).1)
unfolding resume_from decrement
resumed-spent none p h = ground (arith, h)
resumed-spent (some n) p h = ground (arith, h)

thrown-spent :
    (o : Option ℕ) (p : Suspension)
    → p.sentinel ≡ o
    → one_if (error_from o p).0 + one_if (spent p) ≡ one_if (spent (error_from o p).1)
unfolding error_from
thrown-spent none p h = ground (arith, h)
thrown-spent (some n) p h = ground (arith, h)

strike-Once :
    (w : ℕ) (r : Bool × Suspension) (s : System)
    → w < s.made
    → one_if r.0 + one_if (spent (s.suspensions w)) ≡ one_if (spent r.1)
    → Once s
    → Once (strike w r s)
unfolding strike
strike-Once w (hit, q) s lt e v = record {
  fresh = λ i h. ground (arith, v.fresh i h, count-append i s.handles (w ∷ []));
  counted = λ i. ground (arith, e, v.counted i, v.counted w, count-append i s.handles (w ∷ []));
}

wake-Once : (w : ℕ) (s : System) → w < s.made → Once s → Once (wake w s)
unfolding wake
wake-Once w s lt v =
    let p = s.suspensions w in strike-Once w _ s lt (resumed-spent p.sentinel p refl) v

error-Once : (w : ℕ) (s : System) → w < s.made → Once s → Once (error w s)
unfolding error
error-Once w s lt v =
    let p = s.suspensions w in strike-Once w _ s lt (thrown-spent p.sentinel p refl) v

wake_all-Once :
    (ws : List ℕ) (s : System)
    → ((i : ℕ) → elem i ws ≡ true → i < s.made)
    → Once s
    → Once (wake_all ws s)
unfolding wake_all wake strike
wake_all-Once [] s h v = v
wake_all-Once (w ∷ ws) s h v =
    wake_all-Once ws (wake w s) (λ i e. h i (ground (arith, e)))
      (wake-Once w s (h w (ground arith)) v)

notify-Once : (n : ℕ) (s : System) → IsSound s → Once s → Once (notify_from n s)
unfolding notify_from
notify-Once zero s q v = v
notify-Once (suc n) s q v =
    wake_all-Once s.watchers (record s { watchers = []; dirty = false; notifying = n })
      q.reached.known (record { fresh = v.fresh; counted = v.counted })

register-Once : (k : ℕ) (s : System) → Once s → Once (register k s)
unfolding register add_waker build_sentinel
register-Once k s v =
    let p : Suspension = record { sentinel = build_sentinel k; consumed = false } in
    let t = record s { suspensions = update s.suspensions s.made p; made = suc s.made } in
    let u : Once t = record {
      fresh = λ i h. v.fresh i (omega (arith, h));
      counted = λ i. ground (arith, v.counted i, v.fresh i);
    } in
    elim s.flag
      as (λ b. Once (
        if b
        then wake s.made t
        else record t { watchers = s.watchers ++ s.made ∷ []; dirty = true })) [
          | true ↦ wake-Once s.made t (omega arith) u
          | false ↦ record { fresh = u.fresh; counted = u.counted }
        ]

-- Whether a call of `clear` takes the lock of the watchers.
abbrev is_hold : Move → Bool
is_hold unnotifies = true
is_hold _ = false

abbrev pub holds : List Move → Bool
holds [] = false
holds (m ∷ ms) = is_hold m || holds ms

step-Once : (s : System) (m : Move) → is_hold m ≡ false → IsSound s → Once s → Once (step s m)
unfolding step rem_stale_wakers
step-Once s sets h q v =
    elim s.flag
      as (λ b. Once (if b then s else record s { flag = true; notifying = suc s.notifying })) [
        | true ↦ v
        | false ↦ record { fresh = v.fresh; counted = v.counted }
      ]
step-Once s notifies h q v = notify-Once s.notifying s q v
step-Once s clears h q v =
    elim s.flag
      as (λ b. Once (if b then record s { flag = false; holding = suc s.holding } else s)) [
        | true ↦ record { fresh = v.fresh; counted = v.counted }
        | false ↦ v
      ]
step-Once s unnotifies h q v = absurd (cc h)
step-Once s waiters h q v = elim s.dirty as (λ b. Once (if b then rem_stale_wakers s else s)) [
  | true ↦ record { fresh = v.fresh; counted = v.counted }
  | false ↦ v
]
step-Once s (registers k) h q v = register-Once k s v
step-Once s (resumes i) h q v =
    elim (ltb i s.made) as (λ b. (ltb i s.made ≡ b) → Once (if b then wake i s else s)) [
      | true ↦ λ l. wake-Once i s (ltb→lt i s.made l) v
      | false ↦ λ l. v
    ]
      refl
step-Once s (errors i) h q v =
    elim (ltb i s.made) as (λ b. (ltb i s.made ≡ b) → Once (if b then error i s else s)) [
      | true ↦ λ l. error-Once i s (ltb→lt i s.made l) v
      | false ↦ λ l. v
    ]
      refl

run-Once : (s : System) (ms : List Move) → holds ms ≡ false → IsSound s → Once s → Once (run s ms)
unfolding run
run-Once s [] h q v = v
run-Once s (m ∷ ms) h q v =
    run-Once (step s m) ms (ground (arith, h)) (step-IsSound s m q)
      (step-Once s m (ground (arith, h)) q v)

-- Where no call of `clear` comes to the watchers, every coroutine, however many events it waits for, is
-- handed to the scheduler at most once, and just if its suspension is spent: an abort or the last of
-- its events, whichever comes first.
pub handed_once :
    (ms : List Move) (i : ℕ)
    → holds ms ≡ false
    → let s = run new ms in count i s.handles ≡ one_if (spent (s.suspensions i))
unfolding new
handed_once ms i h =
    (run-Once new ms h new-IsSound (record { fresh = λ i h. refl; counted = λ i. refl })).counted i
