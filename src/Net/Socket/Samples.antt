-- ===== src/Net/Socket/Samples.antt =====
-- Runs of the socket's loops on short answers of the kernel.
use tonio.Prelude.{ℕ, ◌≡◌, refl, true, List, [], ◌∷◌}
use tonio.Io.{Ready, reading, writing, new, nothing, arm, clear, edge}
use tonio.Net.Socket.{
  returns, interrupted, would_block, calling, finished, Move, answer, report, deregister, arms,
  clears, enter, step, run,
}
use tonio.Net.Socket.Waking.{loop_wakes}
use tonio.Net.Socket.Connect
use tonio.Net.Socket.Connect.{connect_result}

abbrev readable : Ready
readable = record nothing { readable = true }

-- The task parks, is woken, is interrupted, and reads 5.
abbrev reads : List (Move ℕ)
reads = report readable ∷ answer interrupted ∷ answer (returns 5) ∷ []

read_five : (run reading (enter reading new []) reads).phase ≡ finished 5
unfolding run enter new step edge arm
read_five = refl

-- A loop that would have blocked, while another task sends.
abbrev blocked : List (Move ℕ)
blocked = report readable ∷ arms writing ∷ answer would_block ∷ clears writing ∷ []

loop_wakes_example :
    let t = run reading (enter reading new []) blocked in
    ((step reading t (report readable)).phase ≡ calling)
    × ((step reading t deregister).phase ≡ calling)
unfolding run enter new step edge arm clear
loop_wakes_example = loop_wakes reading new blocked 2 readable refl refl refl

-- In progress, woken, SO_ERROR 0, and a peer.
abbrev connects : List Connect.Move
connects =
    Connect.answer Connect.in_progress
    ∷ Connect.report (record nothing { writable = true })
    ∷ Connect.answer (Connect.so_error 0)
    ∷ Connect.answer Connect.peer
    ∷ []

connect_result_example :
    let t = Connect.run (Connect.started new) connects in Connect.Explained t.phase t.asked
connect_result_example = connect_result new connects
