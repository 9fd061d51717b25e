-- ===== src/Events/Waking.antt =====
-- No wake-up of an event is lost, and none comes twice.
use tonio.Prelude.{
  ℕ, suc, ◌≤◌, ◌<◌, ◌≡◌, refl, ap, true, false, none, List, [], ◌∷◌, arith, if◌then◌else◌, count,
  elem, ltb,
}
use tonio.Events.{
  System, new, wake, error, rem_stale_wakers, Move, sets, notifies, clears, unnotifies, waiters,
  registers, resumes, errors, step, run,
}
use tonio.Events.Sound.{
  IsSound, notify-IsSound, unnotify-IsSound, stale-IsSound, struck, thrown, register-IsSound,
}

pub step-IsSound : (s : System) (m : Move) → IsSound s → IsSound (step s m)
unfolding step
step-IsSound s sets v =
    elim s.flag
        as (λ b.
          (b ≡ s.flag)
          → IsSound (if b then s else record s { flag = true; notifying = suc s.notifying })) [
            | true ↦ λ f. v
            | false ↦ λ f. record {
              reached = record {
                fresh = v.reached.fresh;
                known = v.reached.known;
                once = v.reached.once;
                reach = v.reached.reach;
              };
              quiet = λ g q. absurd (omega arith);
            }
          ]
      refl
step-IsSound s notifies v = notify-IsSound s.notifying s v
step-IsSound s clears v =
    elim s.flag
        as (λ b.
          (b ≡ s.flag)
          → IsSound (if b then record s { flag = false; holding = suc s.holding } else s)) [
            | true ↦ λ f. record {
              reached = record {
                fresh = v.reached.fresh;
                known = v.reached.known;
                once = v.reached.once;
                reach = v.reached.reach;
              };
              quiet = λ g q. absurd (cc g);
            }
            | false ↦ λ f. v
          ]
      refl
step-IsSound s unnotifies v = unnotify-IsSound s.holding s v
step-IsSound s waiters v = elim s.dirty as (λ b. IsSound (if b then rem_stale_wakers s else s)) [
  | true ↦ stale-IsSound s v
  | false ↦ v
]
step-IsSound s (registers k) v = register-IsSound k s v
step-IsSound s (resumes i) v =
    elim (ltb i s.made) as (λ b. (ltb i s.made ≡ b) → IsSound (if b then wake i s else s)) [
      | true ↦ λ h. struck i s v h
      | false ↦ λ h. v
    ]
      refl
step-IsSound s (errors i) v =
    elim (ltb i s.made) as (λ b. (ltb i s.made ≡ b) → IsSound (if b then error i s else s)) [
      | true ↦ λ h. thrown i s v h
      | false ↦ λ h. v
    ]
      refl

run-IsSound : (s : System) (ms : List Move) → IsSound s → IsSound (run s ms)
unfolding run
run-IsSound s [] v = v
run-IsSound s (m ∷ ms) v = run-IsSound (step s m) ms (step-IsSound s m v)

pub new-IsSound : IsSound new
unfolding new
new-IsSound = record {
  reached = record {
    fresh = λ i h. refl;
    known = λ i h. absurd (cc h);
    once = λ i e. refl;
    reach = λ i l e. absurd (omega arith);
  };
  quiet = λ f q. refl;
}

-- However an event is set and cleared, and waiters are registered, resumed by their timer and aborted: a
-- coroutine that waits for this event alone is handed to the scheduler at most once.
pub woken_once :
    (ms : List Move) (i : ℕ)
    → ((run new ms).suspensions i).sentinel ≡ none
    → count i (run new ms).handles ≤ 1
woken_once ms i e = let v = run-IsSound new ms new-IsSound in ground (arith, v.reached.once i e)

-- However an event is set and cleared, and waiters are registered, resumed by their timer and aborted:
-- where the event is set and no `set` stands between its halves, each coroutine that waited for
-- this event alone has been handed to the scheduler, exactly once.
pub set_wakes :
    (ms : List Move) (i : ℕ)
    → i < (run new ms).made
    → ((run new ms).suspensions i).sentinel ≡ none
    → (run new ms).flag ≡ true
    → (run new ms).notifying ≡ 0
    → count i (run new ms).handles ≡ 1
set_wakes ms i l e f q =
    let v = run-IsSound new ms new-IsSound in
    ground (arith, v.reached.once i e, v.reached.reach i l e, ap (λ ws. elem i ws) (v.quiet f q))
