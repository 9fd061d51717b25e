-- ===== src/Sync/Channel/Samples.antt =====
-- Runs of a channel of size 1 with two receivers.
use tonio.Prelude.{
  ◌≤◌, ◌≡◌, refl, false, some, List, [], ◌∷◌, ◌++◌, get_elem?, length, total, arith,
}
use tonio.Sync.Waiters.{waiting}
use tonio.Sync.Channel.{System, Move, sends, receives, cancels, start, step, run}
use tonio.Sync.Channel.Order.{messages, unawaited, run_fifo}
use tonio.Sync.Channel.Wakeups.{cancelled_receiver_strands}

abbrev moves : List Move
moves = sends 7 ∷ sends 8 ∷ receives 0 ∷ sends 9 ∷ []

first_received : (run (start 1 2) moves).received ≡ 7 ∷ []
unfolding run start
first_received = refl

run_fifo_example :
    let s = run (start 1 2) moves in
    (s.sent ≡ s.received ++ messages s.channel.queue)
    × (s.channel.len ≡ length s.channel.queue)
    × (total unawaited s.channel.queue ≤ s.channel.size)
run_fifo_example = run_fifo 1 2 moves

-- Both receivers wait.
abbrev both_wait : System
both_wait = run (start 1 2) (receives 0 ∷ receives 1 ∷ [])

cancelled_receiver_strands_example :
    let s' = step (step both_wait (cancels 0)) (sends 7) in
    (messages s'.channel.queue ≡ 7 ∷ [])
    × (s'.events.flag 1 ≡ false)
    × (get_elem? s'.tasks 1 ≡ some (waiting 1))
unfolding run start
cancelled_receiver_strands_example =
    cancelled_receiver_strands both_wait 0 1 0 1 7 [] refl refl (omega arith) (omega arith) refl
      refl refl refl
