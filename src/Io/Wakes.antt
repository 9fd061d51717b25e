-- ===== src/Io/Wakes.antt =====
-- A report or a shutdown takes the parked event of each direction that it shows, and that direction
-- is then found ready.
use tonio.Prelude.{◌≡◌, none, true, false, arith}
use tonio.Io.{
  Ready, Direction, reading, writing, ScheduledIo, shows, slot, arm, edge, shutdown, woken,
}

pub edge-shown :
    (d : Direction) (r : Ready) (io : ScheduledIo)
    → shows d r ≡ true
    → (woken d (edge r io) ≡ slot d io) × ((arm d (edge r io).2).0 ≡ none)
unfolding edge arm
edge-shown reading r io h = (ground arith, ground arith)
edge-shown writing r io h = (ground arith, ground arith)

pub edge-hidden :
    (d : Direction) (r : Ready) (io : ScheduledIo)
    → shows d r ≡ false
    → (woken d (edge r io) ≡ none) × (slot d (edge r io).2 ≡ slot d io)
unfolding edge
edge-hidden reading r io h = (ground arith, ground arith)
edge-hidden writing r io h = (ground arith, ground arith)

pub shutdown-woken :
    (d : Direction) (io : ScheduledIo)
    → (woken d (shutdown io) ≡ slot d io) × ((arm d (shutdown io).2).0 ≡ none)
unfolding shutdown arm
shutdown-woken reading io = (ground arith, ground arith)
shutdown-woken writing io = (ground arith, ground arith)
