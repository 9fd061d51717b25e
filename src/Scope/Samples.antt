-- ===== src/Scope/Samples.antt =====
-- A scope with three tasks, of which one ends before the cancellation.
use tonio.Prelude.{◌≡◌, refl, List, [], ◌∷◌, ◌++◌}
use tonio.Scope.{
  new, returned, call, Move, entering, leaving, spawning, cancelling, calling, ending, run,
}
use tonio.Scope.Aborts.{Exits, call_aborts}

abbrev moves : List Move
moves = entering ∷ spawning ∷ spawning ∷ spawning ∷ ending 1 returned ∷ cancelling ∷ leaving ∷ []

call_aborts_example : Exits (run new moves) (call (run new moves))
unfolding run new
call_aborts_example = call_aborts moves refl

-- The tasks 0 and 2 are aborted.
aborted_two : (run new (moves ++ calling ∷ [])).aborted ≡ 0 ∷ 2 ∷ []
unfolding run new
aborted_two = refl
