-- ===== src/Events.antt =====
-- The event of src/events.rs and the coroutines that wait for it: `set` and `clear`, each of which
-- changes the flag before it takes the lock of the watchers, the wakers, and the suspensions that
-- a waker, a timer or an abort resumes. A waiter of several events has a sentinel, a counter; what its
-- other events do is a move of its own. Suspensions are those of generators, PyGenSuspension.
mod Samples
pub mod Reached
pub mod Sound
pub mod Waking
pub mod Holding
use tonio.Prelude.{
  ℕ, zero, suc, ◌+◌, ◌-◌, Bool, true, false, not, Option, none, some, List, [], ◌∷◌, ◌++◌, update,
  ltb, leb, ◌==◌, if◌then◌else◌,
}

-- `sentinel` is the counter, where there is one.
pub record Suspension : Type 0 where
  pub sentinel : Option ℕ
  pub consumed : Bool

-- Waiter::build_sentinel, for the number of events of the waiter.
unfoldable pub build_sentinel : ℕ → Option ℕ
build_sentinel k = if leb k 1 then none else some k

-- Sentinel::decrement: whether the composed value is given, and the counter.
unfoldable pub decrement : ℕ → Bool × ℕ
decrement n = if n == 0 then (false, 0) else (n == 1, n - 1)

-- PyGenSuspension::resume: whether a handle is added.
unfoldable pub resume_from : Option ℕ → Suspension → Bool × Suspension
unfolding decrement
resume_from none p = (not p.consumed, record p { consumed = true })
resume_from (some n) p = let (hit, m) = decrement n in (hit, record p { sentinel = some m })

-- PyGenSuspension::error, with Sentinel::consume.
unfoldable pub error_from : Option ℕ → Suspension → Bool × Suspension
error_from none p = (not p.consumed, record p { consumed = true })
error_from (some n) p = (not (n == 0), record p { sentinel = some 0 })

-- PyGenSuspension::suspend, with Sentinel::increment.
unfoldable pub suspend_from : Option ℕ → Suspension → Suspension
suspend_from none p = p
suspend_from (some n) p = record p { sentinel = some (suc n) }

-- One event. `notifying` and `holding` count the calls of `set` and `clear` that have changed the flag
-- and not yet taken the lock. `handles` are the suspensions whose coroutine was handed to the scheduler.
pub record System : Type 0 where
  pub flag : Bool
  pub watchers : List ℕ
  pub dirty : Bool
  pub notifying : ℕ
  pub holding : ℕ
  pub suspensions : ℕ → Suspension
  pub made : ℕ
  pub handles : List ℕ

-- Event::new
unfoldable pub new : System
new = record {
  flag = false;
  watchers = [];
  dirty = false;
  notifying = 0;
  holding = 0;
  suspensions = λ i. record { sentinel = none; consumed = false };
  made = 0;
  handles = [];
}

-- What a suspension has become, and `add_handle` if it says so.
unfoldable pub strike : ℕ → Bool × Suspension → System → System
strike i (hit, p) s = record s {
  suspensions = update s.suspensions i p;
  handles = if hit then s.handles ++ i ∷ [] else s.handles;
}

-- Waker::wake
unfoldable pub wake : ℕ → System → System
unfolding strike resume_from
wake i s = let p = s.suspensions i in strike i (resume_from p.sentinel p) s

-- Suspension::error
unfoldable pub error : ℕ → System → System
unfolding strike error_from
error i s = let p = s.suspensions i in strike i (error_from p.sentinel p) s

-- Waker::hold
unfoldable pub hold : ℕ → System → System
unfolding strike suspend_from
hold i s = let p = s.suspensions i in strike i (false, suspend_from p.sentinel p) s

unfoldable pub wake_all : List ℕ → System → System
unfolding wake
wake_all [] s = s
wake_all (i ∷ ws) s = wake_all ws (wake i s)

unfoldable pub hold_all : List ℕ → System → System
unfolding hold
hold_all [] s = s
hold_all (i ∷ ws) s = hold_all ws (hold i s)

-- Event::notify, where a `set` stands before it.
unfoldable pub notify_from : ℕ → System → System
unfolding wake_all
notify_from zero s = s
notify_from (suc n) s =
    wake_all s.watchers (record s { watchers = []; dirty = false; notifying = n })

-- Event::unnotify, where a `clear` stands before it.
unfoldable pub unnotify_from : ℕ → System → System
unfolding hold_all
unnotify_from zero s = s
unnotify_from (suc n) s = hold_all s.watchers (record s { holding = n })

-- Event::add_waker
unfoldable pub add_waker : ℕ → System → System
unfolding wake
add_waker i s =
    if s.flag then wake i s else record s { watchers = s.watchers ++ i ∷ []; dirty = true }

-- Waiter::register, as far as this event goes, for a waiter of `k` events.
unfoldable pub register : ℕ → System → System
unfolding add_waker build_sentinel
register k s = add_waker s.made (record s {
  suspensions =
      update s.suspensions s.made (record { sentinel = build_sentinel k; consumed = false });
  made = suc s.made;
})

abbrev pub is_empty : List ℕ → Bool
is_empty [] = true
is_empty (i ∷ ws) = false

-- The watchers without the dead ones at the back.
unfoldable pub live : (ℕ → Suspension) → List ℕ → List ℕ
live f [] = []
live f (i ∷ ws) =
    let rest = live f ws in
    if is_empty rest then (if (f i).consumed then [] else i ∷ []) else i ∷ rest

-- Event::rem_stale_wakers
unfoldable pub rem_stale_wakers : System → System
unfolding live
rem_stale_wakers s =
    let ws = live s.suspensions s.watchers in
    record s { watchers = ws; dirty = if is_empty ws then false else s.dirty }

pub data Move : Type 0 where
  -- the halves of `set` and of `clear`
  sets notifies clears unnotifies : Move
  -- `waiter` is called, and a waiter of the given number of events is registered
  waiters : Move
  registers : ℕ → Move
  -- the timer or another event of suspension `i` resumes it, or an abort throws into it
  resumes errors : ℕ → Move

unfoldable pub step : System → Move → System
unfolding notify_from unnotify_from rem_stale_wakers register wake error
step s sets = if s.flag then s else record s { flag = true; notifying = suc s.notifying }
step s notifies = notify_from s.notifying s
step s clears = if s.flag then record s { flag = false; holding = suc s.holding } else s
step s unnotifies = unnotify_from s.holding s
step s waiters = if s.dirty then rem_stale_wakers s else s
step s (registers k) = register k s
step s (resumes i) = if ltb i s.made then wake i s else s
step s (errors i) = if ltb i s.made then error i s else s

unfoldable pub run : System → List Move → System
unfolding step
run s [] = s
run s (m ∷ ms) = run (step s m) ms
