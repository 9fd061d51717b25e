-- ===== src/Io/Samples.antt =====
-- An edge that comes between arming and clearing.
use tonio.Prelude.{◌≢◌, refl, true, none, replicate, arith}
use tonio.Io.{Ready, reading, ScheduledIo, new, nothing, arm, clear, set_readiness}
use tonio.Io.Edges.{edges, rearm_wraps}

abbrev readable : Ready
readable = record nothing { readable = true }

-- A descriptor that the poller has found readable.
abbrev ready_io : ScheduledIo
ready_io = set_readiness readable new

rearm_wraps_example :
    (arm reading (clear reading (edges (replicate 256 readable) (arm reading ready_io).1))).0 ≢ none
unfolding arm set_readiness new
rearm_wraps_example =
    rearm_wraps reading ready_io (replicate 256 readable) (omega arith) refl refl refl
