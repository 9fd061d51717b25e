-- ===== src/Net/Tls/Sharing/Samples.antt =====
-- Two tasks that write to one stream, in turn.
use tonio.Prelude.{ℕ, ◌+◌, ◌≤◌, ◌≡◌, refl, List, [], ◌∷◌, ◌++◌, count, total}
use tonio.Net.Tls.Sharing.{Move, writes, locks, sends, cancels, start, step, run}
use tonio.Net.Tls.Sharing.Bytes.{in_hands, is_sending, sharing_keeps}
use tonio.Net.Tls.Sharing.Gather.{gather, sending_of, stepped_of}
use tonio.Net.Tls.Sharing.Order.{in_turn_order}

abbrev moves : List Move
moves = writes 0 (7 ∷ []) ∷ locks 0 ∷ writes 1 (8 ∷ []) ∷ sends 0 ∷ locks 1 ∷ []

-- A task is cancelled behind its step.
abbrev cancelling : List Move
cancelling = writes 0 (7 ∷ []) ∷ locks 0 ∷ writes 1 (8 ∷ []) ∷ cancels 1 ∷ sends 0 ∷ []

in_turn_order_example :
    let s = run (start (5 ∷ []) 2) moves in
    s.produced ≡ s.given ++ (gather sending_of s.tasks ++ (s.egress ++ gather stepped_of s.tasks))
unfolding run start step
in_turn_order_example = in_turn_order (5 ∷ []) 2 moves refl refl refl

sharing_keeps_example :
    let s = run (start (5 ∷ []) 2) cancelling in
    (total is_sending s.tasks ≤ 1)
    × ((b : ℕ)
        → count b s.produced
          ≡ count b s.given
            + count b s.lost
            + count b s.dropped
            + count b s.egress
            + in_hands b s.tasks)
sharing_keeps_example = sharing_keeps (5 ∷ []) 2 cancelling
