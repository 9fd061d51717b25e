-- ===== src/Net/Socket/Calls.antt =====
-- The methods of `_Socket` that suspend, but `connect`: the system call, its direction, and where the
-- coroutine stands when it first gives up control.
use tonio.Prelude.{◌≡◌, refl, arith, ℕ, Option, none, some, List, [], ◌∷◌}
use tonio.Net.Address.{Address, Result, ok, err, ◌>>=◌}
use tonio.Io.{Direction, reading, writing, ScheduledIo, arm, clear, edge, shutdown}
use tonio.Net.Socket.Loop.{Explained, loop_result, first_result}
use tonio.Net.Socket.{
  Move, run, step, step_from, resume, answer, report, deregister, arms, clears, Task, Phase, first,
  finished, enter,
}

-- The calls on the wrapped stdlib socket, with their arguments; a buffer is its length.
pub data Call : Type 0 where
  accept : Call
  recv : ℕ → ℕ → Call
  recv_into : ℕ → ℕ → ℕ → Call
  recvfrom : ℕ → ℕ → Call
  recvfrom_into : ℕ → ℕ → ℕ → Call
  recvmsg : ℕ → ℕ → ℕ → Call
  recvmsg_into : List ℕ → ℕ → ℕ → Call
  send : List ℕ → ℕ → Call
  sendto : List ℕ → Address → Call
  sendmsg : List (List ℕ) → List ℕ → ℕ → Option Address → Call

pub record Started (R : Type 0) : Type 0 where
  pub call : Option Call
  pub direction : Direction
  pub task : Task R

module _ {R : Type 0} where
  -- A method that enters its loop at once.
  abbrev pub looping : Direction → Call → ScheduledIo → Started R
  looping d c io = record { call = some c; direction = d; task = enter d io [] }

  -- A method that first makes the call once outside the loop.
  abbrev pub trying : Call → ScheduledIo → Started R
  trying c io = record {
    call = some c;
    direction = writing;
    task = record { io = io; phase = first; asked = [] };
  }

  -- A method that ends with no call at all.
  abbrev pub ended : Phase R → ScheduledIo → Started R
  ended p io = record {
    call = none;
    direction = writing;
    task = record { io = io; phase = p; asked = [] };
  }

  -- `accept`; the pair of the new socket and its address is the value.
  pub do_accept : ScheduledIo → Started R
  do_accept io = looping reading accept io

  pub do_recv : ℕ → ℕ → ScheduledIo → Started R
  do_recv bufsize flags io = looping reading (recv bufsize flags) io

  pub do_recv_into : ℕ → ℕ → ℕ → ScheduledIo → Started R
  do_recv_into buffer nbytes flags io = looping reading (recv_into buffer nbytes flags) io

  pub do_recvfrom : ℕ → ℕ → ScheduledIo → Started R
  do_recvfrom bufsize flags io = looping reading (recvfrom bufsize flags) io

  pub do_recvfrom_into : ℕ → ℕ → ℕ → ScheduledIo → Started R
  do_recvfrom_into buffer nbytes flags io = looping reading (recvfrom_into buffer nbytes flags) io

  pub do_recvmsg : ℕ → ℕ → ℕ → ScheduledIo → Started R
  do_recvmsg bufsize ancbufsize flags io = looping reading (recvmsg bufsize ancbufsize flags) io

  pub do_recvmsg_into : List ℕ → ℕ → ℕ → ScheduledIo → Started R
  do_recvmsg_into buffers ancbufsize flags io =
      looping reading (recvmsg_into buffers ancbufsize flags) io

-- `send`: no data is 0 at once.
pub do_send : List ℕ → ℕ → ScheduledIo → Started ℕ
do_send [] flags io = ended (finished 0) io
do_send (b ∷ data') flags io = trying (send (b ∷ data') flags) io

-- `sendto`, after `_resolve_address` has given an address or raised. No data is None at once, before
-- the address is looked at.
pub do_sendto : List ℕ → Result Address → ScheduledIo → Result (Started (Option ℕ))
do_sendto [] address io = ok (ended (finished none) io)
do_sendto (b ∷ data') address io = do a ← address; ok (trying (sendto (b ∷ data') a) io)

-- `sendmsg`: an address that is given is resolved first.
pub do_sendmsg :
    List (List ℕ) → List ℕ → ℕ → Option (Result Address) → ScheduledIo → Result (Started ℕ)
do_sendmsg buffers ancdata flags none io = ok (trying (sendmsg buffers ancdata flags none) io)
do_sendmsg buffers ancdata flags (some address) io = do
  a ← address
  ok (trying (sendmsg buffers ancdata flags (some a)) io)

-- How a started method has gone on after some moves.
abbrev pub Faithful : {R : Type 0} → Started R → List (Move R) → Type 0
Faithful s ms = let t = run s.direction s.task ms in Explained t.phase t.asked

-- Every receiving method and `accept`, driven by any answers and reports, returns or raises exactly
-- what the kernel answered last, every earlier answer being a refusal after which it called again.
pub receives_result :
    {R : Type 0} (a b c : ℕ) (bs : List ℕ) (io : ScheduledIo) (ms : List (Move R))
    → Faithful (do_accept io) ms
      × Faithful (do_recv a b io) ms
      × Faithful (do_recv_into a b c io) ms
      × Faithful (do_recvfrom a b io) ms
      × Faithful (do_recvfrom_into a b c io) ms
      × Faithful (do_recvmsg a b c io) ms
      × Faithful (do_recvmsg_into bs b c io) ms
unfolding do_accept do_recv do_recv_into do_recvfrom do_recvfrom_into do_recvmsg do_recvmsg_into
receives_result a b c bs io ms = let h = loop_result reading io ms in (h, h, h, h, h, h, h)

finished_stays :
    {R : Type 0} (d : Direction) (v : R) (t : Task R) (ms : List (Move R))
    → t.phase ≡ finished v
    → ((run d t ms).phase ≡ finished v) × ((run d t ms).asked ≡ t.asked)
unfolding run step step_from resume
finished_stays d v t [] h = (h, refl)
finished_stays d v t (answer a ∷ ms) h = ground (arith, finished_stays d v t ms h)
finished_stays d v t (report r ∷ ms) h =
    ground (arith, finished_stays d v (record t { io = (edge r t.io).2 }) ms h)
finished_stays d v t (deregister ∷ ms) h =
    ground (arith, finished_stays d v (record t { io = (shutdown t.io).2 }) ms h)
finished_stays d v t (arms e ∷ ms) h =
    ground (arith, finished_stays d v (record t { io = (arm e t.io).1 }) ms h)
finished_stays d v t (clears e ∷ ms) h =
    ground (arith, finished_stays d v (record t { io = clear e t.io }) ms h)

-- The same for a method that may fail before it starts.
abbrev pub FaithfulOk : {R : Type 0} → Result (Started R) → List (Move R) → Type 0
FaithfulOk (ok s) ms = Faithful s ms
FaithfulOk (err e) ms = Unit

-- Every sending method given something to send, driven by any answers and reports, returns or raises
-- exactly what the kernel answered last, every earlier answer being a refusal after which it called
-- again, and `send` of no data is 0 with nothing asked of the kernel.
pub sends_result :
    (b : ℕ) (bs : List ℕ) (buffers : List (List ℕ)) (flags : ℕ) (address : Result Address)
    (io : ScheduledIo) (ms : List (Move ℕ)) (ns : List (Move (Option ℕ)))
    → Faithful (do_send (b ∷ bs) flags io) ms
      × FaithfulOk (do_sendto (b ∷ bs) address io) ns
      × FaithfulOk (do_sendmsg buffers bs flags none io) ms
      × FaithfulOk (do_sendmsg buffers bs flags (some address) io) ms
      × ((run writing (do_send [] flags io).task ms).phase ≡ finished 0)
      × ((run writing (do_send [] flags io).task ms).asked ≡ [])
unfolding do_send do_sendto do_sendmsg
sends_result b bs buffers flags address io ms ns =
    let h = first_result writing io ms in
    let k = finished_stays writing 0 (do_send [] flags io).task ms refl in
    (h, sendto-FaithfulOk address, h, sendmsg-FaithfulOk address, k.0, k.1)
  where
    sendto-FaithfulOk : (a : Result Address) → FaithfulOk (do_sendto (b ∷ bs) a io) ns
    sendto-FaithfulOk (ok a) = first_result writing io ns
    sendto-FaithfulOk (err e) = tt

    sendmsg-FaithfulOk :
        (a : Result Address) → FaithfulOk (do_sendmsg buffers bs flags (some a) io) ms
    sendmsg-FaithfulOk (ok a) = first_result writing io ms
    sendmsg-FaithfulOk (err e) = tt
