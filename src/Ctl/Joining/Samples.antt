-- ===== src/Ctl/Joining/Samples.antt =====
-- Two coroutines, of which one raises.
use tonio.Prelude.{ℕ, ◌≡◌, List, [], ◌∷◌}
use tonio.Ctl.Spawn.{Outcome, returned, raised, Move, finish, arrive, spawned}
use tonio.Ctl.Spawn as Spawn
use tonio.Ctl.Joining.{tracked, run, join}
use tonio.Ctl.Joining.Agreement.{drop_results, without_results_agrees}

abbrev outs : List (Outcome ℕ ℕ)
outs = returned 10 ∷ raised 3 ∷ []

abbrev moves : List Move
moves = finish 1 ∷ arrive ∷ finish 0 ∷ []

without_results_agrees_example :
    join (run outs (tracked 2) moves) ≡ drop_results (Spawn.join (Spawn.run outs (spawned 2) moves))
without_results_agrees_example = without_results_agrees outs 2 moves

abbrev single : Outcome ℕ ℕ
single = returned 10
