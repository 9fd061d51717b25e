-- ===== src/Net/Streams.antt =====
-- SocketStream and SocketListener of tonio/_net/_streams.py.
mod Samples
pub mod Sending
pub mod Accepting
use tonio.Prelude.{
  ℕ, suc, ◌+◌, ◌≡◌, Bool, true, false, Option, none, some, List, [], ◌∷◌, ◌++◌, length, take, drop,
  ltb, ◌==◌, if◌then◌else◌,
}

-- What `socket.send` gives for what is left of the data.
pub data Sent : Type 0 where
  bytes : ℕ → Sent
  fails : ℕ → Sent

-- How far `send_all` has come; `written` is what the kernel has taken.
pub data Progress : Type 0 where
  pending : Progress
  finished : Progress
  raised : ℕ → Progress
  -- RuntimeError: data after EOF
  after_eof : Progress

pub record SendAll : Type 0 where
  pub progress : Progress
  pub total_sent : ℕ
  pub written : List ℕ

-- `while total_sent < len(data)`, one answer of `socket.send` for each round; with no more answers it
-- waits.
pub send_loop : List ℕ → ℕ → List ℕ → List Sent → SendAll
send_loop data' total written [] = record {
  progress = if ltb total (length data') then pending else finished;
  total_sent = total;
  written = written;
}
send_loop data' total written (bytes n ∷ answers) =
    let rest = send_loop data' (total + n) (written ++ take n (drop total data')) answers in
    if ltb total (length data')
    then rest
    else record { progress = finished; total_sent = total; written = written }
send_loop data' total written (fails e ∷ answers) = record {
  progress = if ltb total (length data') then raised e else finished;
  total_sent = total;
  written = written;
}

-- `send_all`, with the socket's EOF flag; the test for no data is the loop's own.
pub send_all : Bool → List ℕ → List Sent → SendAll
unfolding send_loop
send_all true data' answers = record { progress = after_eof; total_sent = 0; written = [] }
send_all false [] answers = record { progress = finished; total_sent = 0; written = [] }
send_all false (b ∷ data') answers = send_loop (b ∷ data') 0 [] answers

-- A stream socket: its EOF flag, and how often the write side was shut down.
pub record Stream : Type 0 where
  pub eof : Bool
  pub shutdowns : ℕ

-- `send_eof`: `_Socket.shutdown(SHUT_WR)`, which sets the flag, unless it is set.
pub send_eof : Stream → Stream
send_eof s = if s.eof then s else record { eof = true; shutdowns = suc s.shutdowns }

-- `max_bytes or 65536`
pub receive_size : Option ℕ → ℕ
receive_size none = 65536
receive_size (some n) = if n == 0 then 65536 else n

-- What `socket.accept` gives: a socket, or an OSError with its number.
pub data Accepted : Type 0 where
  socket : ℕ → Accepted
  os_error : ℕ → Accepted

pub data AcceptState : Type 0 where
  waiting : AcceptState
  stream : ℕ → AcceptState
  failed : ℕ → AcceptState

-- SocketListener.accept, over the set of ignorable error numbers, which the platform gives.
pub accept : (ℕ → Bool) → List Accepted → AcceptState
accept ignorable [] = waiting
accept ignorable (socket s ∷ answers) = stream s
accept ignorable (os_error e ∷ answers) =
    let rest = accept ignorable answers in if ignorable e then rest else failed e
