-- ===== src/Net/Tls/Receiving/Samples.antt =====
-- Two tasks that read from one stream, one of which is served by the other's chunk.
use tonio.Prelude.{◌≤◌, ◌≡◌, refl, List, [], ◌∷◌, map, length, total}
use tonio.Net.Tls.Receiving.{
  Move, wants, notes, locks, gives, start, want_from, note_from, lock_from, written, give_from,
  step, run,
}
use tonio.Net.Tls.Receiving.Snapshots.{is_reading, is_late, receiving_shared}
use tonio.Net.Tls.Receiving.Turns.{in_turn_asked}

abbrev moves : List Move
moves =
    wants 0
    ∷ notes 0
    ∷ wants 1
    ∷ notes 1
    ∷ locks 0
    ∷ gives 0 (7 ∷ [])
    ∷ locks 1
    ∷ wants 1
    ∷ notes 1
    ∷ locks 1
    ∷ []

receiving_shared_example :
    let s = run (start 2) moves in
    (total is_reading s.tasks ≤ 1)
    × (total (is_late s.recv_count) s.tasks ≡ 0)
    × (s.recv_count ≡ length s.chunks)
    × (s.ingress ≡ map written s.chunks)
receiving_shared_example = receiving_shared 2 moves

in_turn_asked_example : 1 ≡ (run (start 2) moves).recv_count
unfolding run start step want_from note_from lock_from give_from
in_turn_asked_example = in_turn_asked 2 moves 1 1 1 refl refl
