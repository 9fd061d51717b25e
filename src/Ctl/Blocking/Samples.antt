-- ===== src/Ctl/Blocking/Samples.antt =====
-- Calls that are cancelled while they run, and in the queue.
use tonio.Prelude.{ℕ, ◌≡◌, refl, none, some, List, [], ◌∷◌}
use tonio.Ctl.Blocking.{
  ok, err, gives, raises, ended, Move, begin, ends, next, wake, cancel, submitted, run,
}
use tonio.Ctl.Blocking.Places.{Right}
use tonio.Ctl.Blocking.Results.{cancels, blocking_result}

abbrev moves : List (Move ℕ ℕ)
moves = begin ∷ cancel ∷ ends (ok 7) ∷ next ∷ next ∷ next ∷ wake ∷ []

blocking_result_example :
    Right 0 (cancels moves) (run 0 submitted moves).phase (run 0 submitted moves)
blocking_result_example = blocking_result 0 moves

-- The coroutine still gets what the function returned.
kept : (run 0 submitted moves).phase ≡ ended (gives (some (ok 7)))
unfolding run submitted
kept = refl

abbrev unmade : List (Move ℕ ℕ)
unmade = cancel ∷ wake ∷ begin ∷ []

never_made : (run 0 submitted unmade).phase ≡ ended (raises (some (err 0)))
unfolding run submitted
never_made = refl

abbrev torn : List (Move ℕ ℕ)
torn = begin ∷ ends (ok 7) ∷ next ∷ cancel ∷ []

-- A fetch between the two stores finds no value.
between : (run 0 submitted torn).phase ≡ ended (gives none)
unfolding run submitted
between = refl
