-- ===== src/Io.antt =====
-- The readiness of a file descriptor: ScheduledIO of src/io/schedule.rs, which ScheduledIO of
-- tonio/_io.py, Fd and Socket share. The readiness word is read as its tick and its flags; each
-- operation is one atomic update, or one critical section.
mod Samples
pub mod Edges
pub mod Wakes
use tonio.Prelude.{
  ℕ, suc, ◌+◌, ◌%◌, Bool, true, false, ◌&&◌, ◌||◌, not, Option, none, some, ◌==◌, if◌then◌else◌,
}

-- What the poller reports of one event.
pub record Ready : Type 0 where
  pub readable : Bool
  pub writable : Bool
  pub read_closed : Bool
  pub write_closed : Bool
  pub error : Bool

pub record Word : Type 0 where
  pub tick : ℕ
  pub shutdown : Bool
  pub ready : Ready

pub data Direction : Type 0 where
  reading writing : Direction

-- `reader` and `writer` are the slots of the parked events, which are numbered as they are made.
pub record ScheduledIo : Type 0 where
  pub word : Word
  pub tick_r : ℕ
  pub tick_w : ℕ
  pub reader : Option ℕ
  pub writer : Option ℕ
  pub made : ℕ

abbrev pub nothing : Ready
nothing = record {
  readable = false;
  writable = false;
  read_closed = false;
  write_closed = false;
  error = false;
}

unfoldable pub new : ScheduledIo
new = record {
  word = record { tick = 0; shutdown = false; ready = nothing };
  tick_r = 0;
  tick_w = 0;
  reader = none;
  writer = none;
  made = 0;
}

-- `ready & READ_ALL != 0` and `ready & WRITE_ALL != 0`.
unfoldable pub shows : Direction → Ready → Bool
shows reading r = r.readable || r.read_closed || r.error
shows writing r = r.writable || r.write_closed || r.error

-- `curr & !READ_ALL` and `curr & !WRITE_ALL`.
unfoldable pub without : Direction → Ready → Ready
without reading r = record r { readable = false; read_closed = false; error = false }
without writing r = record r { writable = false; write_closed = false; error = false }

-- `curr | ready`
unfoldable pub merge : Ready → Ready → Ready
merge a b = record {
  readable = a.readable || b.readable;
  writable = a.writable || b.writable;
  read_closed = a.read_closed || b.read_closed;
  write_closed = a.write_closed || b.write_closed;
  error = a.error || b.error;
}

abbrev pub armed_tick : Direction → ScheduledIo → ℕ
armed_tick reading io = io.tick_r
armed_tick writing io = io.tick_w

abbrev pub with_tick : Direction → ℕ → ScheduledIo → ScheduledIo
with_tick reading t io = record io { tick_r = t }
with_tick writing t io = record io { tick_w = t }

abbrev pub slot : Direction → ScheduledIo → Option ℕ
slot reading io = io.reader
slot writing io = io.writer

abbrev pub with_slot : Direction → Option ℕ → ScheduledIo → ScheduledIo
with_slot reading e io = record io { reader = e }
with_slot writing e io = record io { writer = e }

-- arm_r, arm_w: `none` if the direction is ready, and the tick is remembered; otherwise the event
-- that now stands in the slot.
unfoldable pub arm : Direction → ScheduledIo → Option ℕ × ScheduledIo
unfolding shows
arm d io =
    if shows d io.word.ready || io.word.shutdown
    then (none, with_tick d io.word.tick io)
    else (some io.made, with_slot d (some io.made) (record io { made = suc io.made }))

-- clear_r, clear_w: only if no edge has come since the direction was armed.
unfoldable pub clear : Direction → ScheduledIo → ScheduledIo
unfolding without
clear d io =
    if io.word.tick == armed_tick d io
    then record io { word = record io.word { ready = without d io.word.ready } }
    else io

-- consume_r, consume_w
unfoldable pub consume : Direction → ScheduledIo → Bool × ScheduledIo
unfolding shows without
consume d io =
    if shows d io.word.ready
    then (true, record io { word = record io.word { ready = without d io.word.ready } })
    else (false, io)

unfoldable pub set_readiness : Ready → ScheduledIo → ScheduledIo
unfolding merge
set_readiness r io = record io {
  word = record io.word { tick = (io.word.tick + 1) % 256; ready = merge io.word.ready r };
}

-- wake: the event of one direction, taken from its slot if the report shows it.
unfoldable pub wake : Direction → Ready → ScheduledIo → Option ℕ × ScheduledIo
unfolding shows
wake d r io = if shows d r then (slot d io, with_slot d none io) else (none, io)

abbrev everything : Ready
everything = record {
  readable = true;
  writable = true;
  read_closed = true;
  write_closed = true;
  error = true;
}

-- The poller's part for one event: the word first, then both slots. The woken events are the result.
unfoldable pub edge : Ready → ScheduledIo → Option ℕ × Option ℕ × ScheduledIo
unfolding set_readiness wake
edge r io =
    let (rd, io₁) = wake reading r (set_readiness r io) in
    let (wr, io₂) = wake writing r io₁ in (rd, wr, io₂)

unfoldable pub shutdown : ScheduledIo → Option ℕ × Option ℕ × ScheduledIo
unfolding wake
shutdown io =
    let (rd, io₁) =
      wake reading everything (record io { word = record io.word { shutdown = true } }) in
    let (wr, io₂) = wake writing everything io₁ in (rd, wr, io₂)

-- The event that a report or a shutdown wakes in one direction.
abbrev pub woken : Direction → Option ℕ × Option ℕ × ScheduledIo → Option ℕ
woken reading r = r.0
woken writing r = r.1
