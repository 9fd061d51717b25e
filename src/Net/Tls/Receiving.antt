-- ===== src/Net/Tls/Receiving.antt =====
-- `_recv` of TLSStream in tonio/_net/_tls.py, called by several tasks that read from one stream: each has
-- been told by the ssl object that it wants data, notes `_recv_count`, and takes `_lock_recv`.
mod Samples
pub mod Snapshots
pub mod Turns
use tonio.Prelude.{
  ℕ, suc, Bool, true, false, Option, none, some, List, [], ◌∷◌, ◌++◌, get_elem?, set, replicate,
  ◌==◌, if◌then◌else◌,
}

-- A task is out of `_recv`; has had SSLWantReadError; has noted the count, and waits for the lock; or has
-- the lock and waits for the transport. The first number is the count when the ssl object was asked,
-- the second the one that it noted.
pub data Phase : Type 0 where
  outside : Phase
  wanting : ℕ → Phase
  noted reading : ℕ → ℕ → Phase

-- `chunks` is what the transport gave, and `ingress` what was written to the ssl object's buffer, where
-- the end of the data is none.
pub record System : Type 0 where
  pub locked : Bool
  pub recv_count : ℕ
  pub tasks : List Phase
  pub chunks : List (List ℕ)
  pub ingress : List (Option (List ℕ))

unfoldable pub start : ℕ → System
start n = record {
  locked = false;
  recv_count = 0;
  tasks = replicate n outside;
  chunks = [];
  ingress = [];
}

pub data Move : Type 0 where
  -- the ssl object wants data for task `i`; the task notes the count; it gets the lock
  wants notes locks : ℕ → Move
  -- the transport gives a chunk, or raises
  gives : ℕ → List ℕ → Move
  fails : ℕ → Move

pub want_from : Option Phase → ℕ → System → System
want_from (some outside) i s = record s { tasks = set s.tasks i (wanting s.recv_count) }
want_from _ i s = s

pub note_from : Option Phase → ℕ → System → System
note_from (some (wanting g)) i s = record s { tasks = set s.tasks i (noted g s.recv_count) }
note_from _ i s = s

pub lock_from : Option Phase → ℕ → System → System
lock_from (some (noted g c)) i s =
    if s.locked
    then s
    else if c == s.recv_count
    then record s { locked = true; tasks = set s.tasks i (reading g c) }
    else record s { tasks = set s.tasks i outside }
lock_from _ i s = s

-- `_ingress_write_eof` or `_ingress_write`
pub written : List ℕ → Option (List ℕ)
written [] = none
written (b ∷ bs) = some (b ∷ bs)

pub give_from : Option Phase → List ℕ → ℕ → System → System
unfolding written
give_from (some (reading g c)) bs i s = record s {
  locked = false;
  recv_count = suc s.recv_count;
  tasks = set s.tasks i outside;
  chunks = s.chunks ++ bs ∷ [];
  ingress = s.ingress ++ written bs ∷ [];
}
give_from _ bs i s = s

pub fail_from : Option Phase → ℕ → System → System
fail_from (some (reading g c)) i s = record s { locked = false; tasks = set s.tasks i outside }
fail_from _ i s = s

unfoldable pub step : System → Move → System
unfolding want_from note_from lock_from give_from fail_from
step s (wants i) = want_from (get_elem? s.tasks i) i s
step s (notes i) = note_from (get_elem? s.tasks i) i s
step s (locks i) = lock_from (get_elem? s.tasks i) i s
step s (gives i bs) = give_from (get_elem? s.tasks i) bs i s
step s (fails i) = fail_from (get_elem? s.tasks i) i s

unfoldable pub run : System → List Move → System
unfolding step
run s [] = s
run s (m ∷ ms) = run (step s m) ms
