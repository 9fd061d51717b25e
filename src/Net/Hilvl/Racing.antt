-- ===== src/Net/Hilvl/Racing.antt =====
-- `open_tcp_stream` and `_close_all_sockets` of tonio/_net/_hilvl.py: one task for each target, which
-- run in any order. A socket is its number, and the set of open sockets is a list in any order.
pub mod Invariant
pub mod Cleanup
use tonio.Prelude.{
  ℕ, suc, Bool, true, false, ◌&&◌, ◌||◌, Option, none, some, List, [], ◌∷◌, ◌++◌, length, get_elem?,
  set, ◌==◌, if◌then◌else◌,
}

-- Where the task of one target stands.
pub data Attempt : Type 0 where
  fresh ended : Attempt
  binding connecting : ℕ → Attempt

-- `made` counts the sockets made, `crashed` the attempts that another exception ended, and `winner` is `winning_socket`; the scope is cancelled with it.
pub record Race : Type 0 where
  pub made : ℕ
  pub open_sockets : List ℕ
  pub winner : Option ℕ
  pub errs : List ℕ
  pub crashed : ℕ
  pub tasks : List Attempt

-- `some e` is an OSError.
pub data Move : Type 0 where
  -- the loop over the targets goes on
  spawn : Move
  -- task `i`: `socket(…)`, `bind`, `connect` end
  creates binds connects : ℕ → Option ℕ → Move
  -- task `i` ends with an exception that is no OSError
  crashes : ℕ → Move

pub start : Race
start = record { made = 0; open_sockets = []; winner = none; errs = []; crashed = 0; tasks = [] }

-- `except OSError`
pub fails : ℕ → ℕ → Race → Race
fails i e r = record r { errs = r.errs ++ e ∷ []; tasks = set r.tasks i ended }

-- An exception that `except OSError` lets pass, of which the scope only knows that the task ended.
pub crash : ℕ → Race → Race
crash i r = record r { crashed = suc r.crashed; tasks = set r.tasks i ended }

-- `attempt_connect` of task `i`, which stands in the given phase, with a local address or not.
pub attempt_connect : Bool → ℕ → Option Attempt → Move → Race → Race
unfolding fails crash
attempt_connect local i (some fresh) (creates _ (some e)) r = fails i e r
attempt_connect local i (some fresh) (creates _ none) r = record r {
  made = suc r.made;
  open_sockets = r.open_sockets ++ r.made ∷ [];
  tasks = set r.tasks i (if local then binding r.made else connecting r.made);
}
attempt_connect local i (some (binding s)) (binds _ (some e)) r = fails i e r
attempt_connect local i (some (binding s)) (binds _ none) r = record r {
  tasks = set r.tasks i (connecting s);
}
attempt_connect local i (some (connecting s)) (connects _ (some e)) r = fails i e r
attempt_connect local i (some (connecting s)) (connects _ none) r = record r {
  winner = some s;
  tasks = set r.tasks i ended;
}
attempt_connect local i (some fresh) (crashes _) r = crash i r
attempt_connect local i (some (binding s)) (crashes _) r = crash i r
attempt_connect local i (some (connecting s)) (crashes _) r = crash i r
attempt_connect local i p m r = r

pub step : Bool → ℕ → Race → Move → Race
unfolding attempt_connect
step local n r spawn = if length r.tasks == n then r else record r { tasks = r.tasks ++ fresh ∷ [] }
step local n r (creates i e) = attempt_connect local i (get_elem? r.tasks i) (creates i e) r
step local n r (binds i e) = attempt_connect local i (get_elem? r.tasks i) (binds i e) r
step local n r (connects i e) = attempt_connect local i (get_elem? r.tasks i) (connects i e) r
step local n r (crashes i) = attempt_connect local i (get_elem? r.tasks i) (crashes i) r

pub run : Bool → ℕ → Race → List Move → Race
unfolding step
run local n r [] = r
run local n r (m ∷ ms) = run local n (step local n r m) ms

pub data Outcome : Type 0 where
  pending : Outcome
  stream : ℕ → Outcome
  -- OSError, from the group of these
  failed : List ℕ → Outcome
  -- `assert len(errs) == len(targets)`
  assertion : Outcome
  -- what `_close_all_sockets` raises of its own
  close_error : List ℕ → Outcome

pub record Finished : Type 0 where
  pub outcome : Outcome
  pub closed : List ℕ

abbrev pub is_ended : Attempt → Bool
is_ended ended = true
is_ended _ = false

abbrev pub all_ended : List Attempt → Bool
all_ended [] = true
all_ended (p ∷ ps) = is_ended p && all_ended ps

-- `set.remove`
pub remove : ℕ → List ℕ → List ℕ
remove w [] = []
remove w (s ∷ ss) = let rest = remove w ss in if s == w then rest else s ∷ rest

abbrev or_error : Option ℕ → List ℕ → List ℕ
or_error none es = es
or_error (some e) es = e ∷ es

-- `_close_all_sockets`: every socket is closed, and the errors are collected.
pub close_all : (ℕ → Option ℕ) → List ℕ → List ℕ × List ℕ
close_all closing [] = ([], [])
close_all closing (s ∷ ss) =
    let (closed, es) = close_all closing ss in (s ∷ closed, or_error (closing s) es)

abbrev after_close : List ℕ → Outcome → Outcome
after_close [] o = o
after_close (e ∷ es) o = close_error (e ∷ es)

-- The end of the block: `o` is how its body ends.
pub leave : (ℕ → Option ℕ) → List ℕ → Outcome → Finished
unfolding close_all
leave closing socks o =
    let (closed, es) = close_all closing socks in
    record { outcome = after_close es o; closed = closed }

-- Behind `yield _scope()`.
pub settle : (ℕ → Option ℕ) → ℕ → Option ℕ → Race → Finished
unfolding leave remove
settle closing n none r =
    leave closing r.open_sockets (if length r.errs == n then failed r.errs else assertion)
settle closing n (some w) r = leave closing (remove w r.open_sockets) (stream w)

abbrev pub won : Option ℕ → Bool
won none = false
won (some w) = true

-- The scope is left when all `n` targets have been tried, and with a winner, which cancels it, or with
-- all tasks ended. The attempts that it then aborts are taken to make no more steps.
pub finish : (ℕ → Option ℕ) → ℕ → Race → Finished
unfolding settle
finish closing n r =
    let f = settle closing n r.winner r in
    if length r.tasks == n && (won r.winner || all_ended r.tasks)
    then f
    else record { outcome = pending; closed = [] }
