-- ===== src/Signals/Samples.antt =====
-- Two receivers of signal 1.
use tonio.Prelude.{ℕ, ◌+◌, ◌≤◌, ◌≡◌, refl, some, List, [], ◌∷◌, count, one_if, arith}
use tonio.Signals.{
  System, Move, enters, exits, delivers, handles_at, turns, start, register, sig_add, step, run,
}
use tonio.Signals.Accounting.{in_flight, signals_accounted}
use tonio.Signals.Stealing.{second_receiver_steals}

abbrev moves : List Move
moves =
    enters 0 (1 ∷ 2 ∷ [])
    ∷ delivers 1
    ∷ handles_at 0
    ∷ turns 0
    ∷ delivers 1
    ∷ turns 0
    ∷ handles_at 0
    ∷ []

signals_accounted_example :
    let s = run start moves in
    count 0 s.noted ≡ count 0 s.sent + in_flight 0 s.coros + one_if (s.events.flag 0)
signals_accounted_example = signals_accounted moves 0

abbrev entered : System
entered = run start (enters 0 (1 ∷ []) ∷ [])

only_first : (g : ℕ) → entered.handlers g ≡ some 0 → g ≡ 1
unfolding run start step register sig_add
only_first g h = ground arith

second_receiver_steals_example :
    count 0
      (run
        (step entered (enters 5 (1 ∷ [])))
        (exits 5 (1 ∷ []) ∷ delivers 1 ∷ handles_at 0 ∷ [])).noted
    ≤ count 0 entered.noted + count 0 entered.handles
unfolding run start step register sig_add
second_receiver_steals_example =
    second_receiver_steals entered 5 1 0 (exits 5 (1 ∷ []) ∷ delivers 1 ∷ handles_at 0 ∷ []) refl
      (omega arith) only_first
