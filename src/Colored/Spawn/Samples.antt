-- ===== src/Colored/Spawn/Samples.antt =====
-- Two coroutines, whose object three tasks await.
use tonio.Prelude.{ℕ, ◌≡◌, none, List, [], ◌∷◌, replicate, arith}
use tonio.Ctl.Spawn.{Outcome, returned, pending, done, spawned, fetch}
use tonio.Colored.Spawn.{ends, awaits, run, result}
use tonio.Colored.Spawn.Awaiting.{awaited_early}

abbrev outs : List (Outcome ℕ ℕ)
outs = returned 10 ∷ returned 20 ∷ []

awaited_early_example :
    (result (run outs (spawned 2) (ends 0 ∷ awaits ∷ [])) ≡ pending)
    × (result (run outs (spawned 2) (replicate 3 awaits)) ≡ done (fetch (replicate 2 none)))
awaited_early_example = awaited_early outs 2 (ends 0 ∷ awaits ∷ []) (omega arith)
