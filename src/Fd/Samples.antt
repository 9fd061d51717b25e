-- ===== src/Fd/Samples.antt =====
-- A write in two parts, and a descriptor closed twice.
use tonio.Prelude.{◌≡◌, true, false, List, [], ◌∷◌, take}
use tonio.Io.{new, nothing}
use tonio.Fd.{wrote, would_block, Move, answer, report, run, send_all}
use tonio.Fd.Writing.{Holds, fd_send_all_result}

abbrev moves : List Move
moves =
    report (record nothing { writable = true })
    ∷ answer (wrote 2)
    ∷ answer would_block
    ∷ report (record nothing { writable = true })
    ∷ answer (wrote 1)
    ∷ []

fd_send_all_result_example :
    let t = run (7 ∷ 8 ∷ 9 ∷ []) (send_all false false (7 ∷ 8 ∷ 9 ∷ []) new) moves in
    (t.written ≡ take t.sent (7 ∷ 8 ∷ 9 ∷ [])) × Holds t.phase (7 ∷ 8 ∷ 9 ∷ []) t.lock_w t.written
fd_send_all_result_example = fd_send_all_result false false (7 ∷ 8 ∷ 9 ∷ []) new moves
