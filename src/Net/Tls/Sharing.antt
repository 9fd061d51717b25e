-- ===== src/Net/Tls/Sharing.antt =====
-- `_send` of TLSStream in tonio/_net/_tls.py, called by several tasks that write to one stream: the ssl
-- object's output is read in `_SSLProxy._step`, and the lock `_lock_send` is taken behind it.
mod Samples
pub mod Bytes
pub mod Gather
pub mod Order
use tonio.Prelude.{
  ℕ, Bool, true, false, Option, none, some, List, [], ◌∷◌, ◌++◌, get_elem?, set, replicate,
  if◌then◌else◌,
}

-- A task is out of the dance, has what its step gave to send, or has the lock and sends.
pub data Phase : Type 0 where
  outside : Phase
  stepped sending : List ℕ → Phase

-- `produced` is what the ssl object wrote, `given` what the transport has sent, and `lost` what was
-- handed to a `send_all` that failed. `dropped` is what tasks had stepped for that were cancelled while
-- they waited for the lock, which is before the `try` of `_send`.
pub record System : Type 0 where
  pub locked : Bool
  pub egress : List ℕ
  pub tasks : List Phase
  pub produced : List ℕ
  pub given : List ℕ
  pub lost : List ℕ
  pub dropped : List ℕ

-- A stream behind its handshake, which may have left something in the egress stack.
unfoldable pub start : List ℕ → ℕ → System
start rest n = record {
  locked = false;
  egress = rest;
  tasks = replicate n outside;
  produced = rest;
  given = [];
  lost = [];
  dropped = [];
}

pub data Move : Type 0 where
  -- the step of a task gives something to send
  writes : ℕ → List ℕ → Move
  -- a task gets the lock and takes the egress stack
  locks : ℕ → Move
  -- the transport's `send_all` returns, or raises
  sends fails : ℕ → Move
  -- CancelledError at the wait for the lock
  cancels : ℕ → Move

pub write_from : Option Phase → ℕ → List ℕ → System → System
write_from (some outside) i d s = record s {
  tasks = set s.tasks i (stepped d);
  produced = s.produced ++ d;
}
write_from _ i d s = s

pub lock_from : Option Phase → ℕ → System → System
lock_from (some (stepped d)) i s =
    if s.locked
    then s
    else record s { locked = true; egress = []; tasks = set s.tasks i (sending (s.egress ++ d)) }
lock_from _ i s = s

pub send_from : Option Phase → ℕ → System → System
send_from (some (sending d)) i s = record s {
  locked = false;
  tasks = set s.tasks i outside;
  given = s.given ++ d;
}
send_from _ i s = s

pub fail_from : Option Phase → ℕ → System → System
fail_from (some (sending d)) i s = record s {
  locked = false;
  tasks = set s.tasks i outside;
  lost = s.lost ++ d;
}
fail_from _ i s = s

pub cancel_from : Option Phase → ℕ → System → System
cancel_from (some (stepped d)) i s = record s {
  tasks = set s.tasks i outside;
  dropped = s.dropped ++ d;
}
cancel_from _ i s = s

unfoldable pub step : System → Move → System
unfolding write_from lock_from send_from fail_from cancel_from
step s (writes i d) = write_from (get_elem? s.tasks i) i d s
step s (locks i) = lock_from (get_elem? s.tasks i) i s
step s (sends i) = send_from (get_elem? s.tasks i) i s
step s (fails i) = fail_from (get_elem? s.tasks i) i s
step s (cancels i) = cancel_from (get_elem? s.tasks i) i s

unfoldable pub run : System → List Move → System
unfolding step
run s [] = s
run s (m ∷ ms) = run (step s m) ms
