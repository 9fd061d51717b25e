-- ===== src/Runtime/Schedule.antt =====
-- How the workers of src/work.rs go idle and are woken: WorkSchedule and `work_loop`, until the runtime
-- stops. A flag changes in one step, and the count of the flags later, in another. The counts of
-- speculation behind one scan change in one step, and so do the two tests of `unpark_one`. What a scan for
-- work finds is a part of the move, and a parked worker may come back at any time.
mod Samples
pub mod Tokens
pub mod Visits
pub mod Accounting
use tonio.Prelude.{
  ℕ, zero, suc, ◌+◌, ◌*◌, ◌%◌, ◌-◌, Bool, true, false, not, Option, none, some, List, [], ◌∷◌,
  get_elem?, set, replicate, ◌==◌, if◌then◌else◌,
}

-- Where a worker stands: at the top of its loop; in its second scan; in the last one, of the injector;
-- parked; or in `wake_idle`, behind a scan that found work, at the given flag. The flag says whether
-- it is speculating.
pub data Place : Type 0 where
  scanning advertised : Bool → Place
  rescanning parked : Place
  waking : ℕ → Place

-- `idle` is the worker's own of `idle_flags`.
pub record Worker : Type 0 where
  pub place : Place
  pub idle : Bool

-- `added` and `subtracted` are how often `idle_count` was counted up and down, and `adding` and `owed` how
-- often it is still to be, by threads that have set or cleared a flag.
-- `producers` are the threads that add handles: each is out of `wake_idle`, or at one of the flags.
pub record System : Type 0 where
  pub workers : List Worker
  pub producers : List (Option ℕ)
  pub added : ℕ
  pub subtracted : ℕ
  pub adding : ℕ
  pub owed : ℕ
  pub speculation : ℕ

unfoldable pub start : ℕ → ℕ → System
start n k = record {
  workers = replicate n (record { place = scanning false; idle = false });
  producers = replicate k none;
  added = 0;
  subtracted = 0;
  adding = 0;
  owed = 0;
  speculation = 0;
}

-- The value of the AtomicUsize `idle_count`, which wraps.
unfoldable pub idle_count : System → ℕ
idle_count s = (s.added + s.subtracted * 18446744073709551615) % 18446744073709551616

-- WorkSchedule::clear_idle, by worker `i`, whose flag is given, and the place to which it goes on; `lost` is
-- the token that it absorbs if the flag was claimed.
pub clear_idle : Bool → ℕ → Place → Bool → System → System
clear_idle true i p lost s = record s {
  workers = set s.workers i (record { place = p; idle = false });
  owed = suc s.owed;
}
clear_idle false i p lost s = record s {
  workers = set s.workers i (record { place = p; idle = false });
  speculation = if lost then s.speculation - 1 else s.speculation;
}

-- The tests of `unpark_one`: whether it goes on to `wake_idle`.
pub may_wake : System → Bool
may_wake s = if idle_count s == 0 then false else s.speculation == 0

-- A worker that was speculating has found work: it gives its token back, and calls `unpark_one` if it had
-- the last one.
pub resign : ℕ → System → System
unfolding may_wake
resign i s =
    let t = record s { speculation = s.speculation - 1 } in
    if s.speculation == 1
    then if may_wake t
      then record t {
        speculation = 1;
        workers = set s.workers i (record { place = waking 0; idle = false });
      }
      else t
    else t

-- Worker `i` finds work in a scan.
pub find_from : Option Worker → ℕ → System → System
unfolding clear_idle resign
find_from (some w) i s = elim w.place [
  | scanning false ↦ s
  | scanning true ↦
      resign i
        (record s { workers = set s.workers i (record { place = scanning false; idle = w.idle }) })
  | advertised false ↦ clear_idle w.idle i (scanning false) true s
  | advertised true ↦ resign i (clear_idle w.idle i (scanning false) true s)
  | rescanning ↦ clear_idle w.idle i (scanning false) true s
  | parked ↦ s
  | waking j ↦ s
]
find_from none i s = s

-- Worker `i` finds no work: `set_idle`, then the token is given back, then the worker parks.
pub miss_from : Option Worker → ℕ → System → System
miss_from (some w) i s = elim w.place [
  | scanning b ↦ record s {
    workers = set s.workers i (record { place = advertised b; idle = true });
    adding = suc s.adding;
  }
  | advertised false ↦ record s { workers = set s.workers i (record w { place = parked }) }
  | advertised true ↦ record s {
    workers = set s.workers i (record w { place = rescanning });
    speculation = s.speculation - 1;
  }
  | rescanning ↦ record s { workers = set s.workers i (record w { place = parked }) }
  | parked ↦ s
  | waking j ↦ s
]
miss_from none i s = s

-- Worker `i` comes back from `park`: it speculates if its flag was claimed.
pub return_from : Option Worker → ℕ → System → System
unfolding clear_idle
return_from (some w) i s = elim w.place [
  | parked ↦ clear_idle w.idle i (scanning (not w.idle)) false s
  | _ ↦ s
]
return_from none i s = s

-- What `wake_idle` does at flag `j`: it claims it, goes on to the next, or gives its token back at the end.
pub data Visit : Type 0 where
  claimed missed : System → Visit
  ended : System → Visit

pub visit_from : Option Worker → ℕ → System → Visit
visit_from none j s = ended (record s { speculation = s.speculation - 1 })
visit_from (some w) j s =
    if w.idle
    then claimed
        (record s { workers = set s.workers j (record w { idle = false }); owed = suc s.owed })
    else missed s

-- A worker in `wake_idle` goes on; at the end it runs the handle that it had found.
pub visited : ℕ → ℕ → Visit → System
visited i j (claimed s) = record s {
  workers = set s.workers i (record { place = scanning false; idle = false });
}
visited i j (ended s) = record s {
  workers = set s.workers i (record { place = scanning false; idle = false });
}
visited i j (missed s) = record s {
  workers = set s.workers i (record { place = waking (suc j); idle = false });
}

pub wake_from : Option Worker → ℕ → System → System
unfolding visit_from visited
wake_from (some w) i s = elim w.place [
  | waking j ↦ visited i j (visit_from (get_elem? s.workers j) j s)
  | _ ↦ s
]
wake_from none i s = s

pub produced : ℕ → ℕ → Visit → System
produced k j (claimed s) = record s { producers = set s.producers k none }
produced k j (ended s) = record s { producers = set s.producers k none }
produced k j (missed s) = record s { producers = set s.producers k (some (suc j)) }

-- Producer `k` calls `unpark_one`, after a push.
pub call_from : Option (Option ℕ) → ℕ → System → System
unfolding may_wake
call_from (some none) k s =
    if may_wake s then record s { producers = set s.producers k (some 0); speculation = 1 } else s
call_from _ k s = s

-- The poller calls `unpark`, which does not look at the speculation.
pub force_from : Option (Option ℕ) → ℕ → System → System
force_from (some none) k s =
    if idle_count s == 0
    then s
    else record s { producers = set s.producers k (some 0); speculation = suc s.speculation }
force_from _ k s = s

pub go_from : Option (Option ℕ) → ℕ → System → System
unfolding visit_from produced
go_from (some (some j)) k s = produced k j (visit_from (get_elem? s.workers j) j s)
go_from _ k s = s

-- A `fetch_add` or a `fetch_sub` of `idle_count` that was still to come.
pub add_from : ℕ → System → System
add_from zero s = s
add_from (suc n) s = record s { adding = n; added = suc s.added }

pub subtract_from : ℕ → System → System
subtract_from zero s = s
subtract_from (suc n) s = record s { owed = n; subtracted = suc s.subtracted }

pub data Move : Type 0 where
  finds misses returns wakes : ℕ → Move
  calls forces goes : ℕ → Move
  adds subtracts : Move

unfoldable pub step : System → Move → System
unfolding find_from miss_from return_from wake_from call_from force_from go_from add_from
    subtract_from
step s (finds i) = find_from (get_elem? s.workers i) i s
step s (misses i) = miss_from (get_elem? s.workers i) i s
step s (returns i) = return_from (get_elem? s.workers i) i s
step s (wakes i) = wake_from (get_elem? s.workers i) i s
step s (calls k) = call_from (get_elem? s.producers k) k s
step s (forces k) = force_from (get_elem? s.producers k) k s
step s (goes k) = go_from (get_elem? s.producers k) k s
step s adds = add_from s.adding s
step s subtracts = subtract_from s.owed s

unfoldable pub run : System → List Move → System
unfolding step
run s [] = s
run s (m ∷ ms) = run (step s m) ms
