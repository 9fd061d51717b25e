-- ===== src/Net/Hilvl/Samples.antt =====
-- Small runs of the high-level helpers.
use tonio.Prelude.{ℕ, Bool, true, false, Option, none, some, List, [], ◌∷◌, ◌==◌}
use tonio.Net.Hilvl.Listeners.{
  Target, made, Accounted, open_tcp_listeners, open_tcp_listeners-Accounted,
}
use tonio.Net.Hilvl.Racing.{Move, spawn, creates, connects, start, run, finish}
use tonio.Net.Hilvl.Racing.Cleanup.{Clean, finish-Clean}
use tonio.Net.Hilvl.Serving
use tonio.Net.Hilvl.Serving.{serve, serve_result}

abbrev good : Target
good = record {
  inet6 = true;
  socket = made;
  reuse_addr = none;
  v6only = none;
  bind = none;
  listen = none;
  wrap = none;
}

-- The second address is in use.
abbrev targets : List Target
targets = good ∷ record good { bind = some 98 } ∷ []

open_tcp_listeners-Accounted_example : Accounted (open_tcp_listeners 97 false targets)
open_tcp_listeners-Accounted_example = open_tcp_listeners-Accounted 97 false targets

-- The first attempt fails after the second has connected.
abbrev race : List Move
race =
    spawn ∷ creates 0 none ∷ spawn ∷ creates 1 none ∷ connects 1 none ∷ connects 0 (some 111) ∷ []

abbrev closes_well : ℕ → Option ℕ
closes_well s = none

finish-Clean_example :
    let r = run false 2 start race in let f = finish closes_well 2 r in Clean 2 r f.outcome f.closed
finish-Clean_example = finish-Clean closes_well false 2 race

-- EMFILE is tried again.
abbrev retried : ℕ → Bool
retried e = e == 24

abbrev accepted : List Serving.Accepted
accepted = Serving.stream 5 ∷ Serving.os_error 24 ∷ Serving.stream 6 ∷ Serving.os_error 9 ∷ []
