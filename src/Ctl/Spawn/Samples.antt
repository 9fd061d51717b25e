-- ===== src/Ctl/Spawn/Samples.antt =====
-- Two coroutines that end in the other order.
use tonio.Prelude.{ℕ, ◌<◌, ◌≡◌, refl, true, some, List, [], ◌∷◌, map, arith, zero, suc}
use tonio.Ctl.Spawn.{
  Outcome, returned, raised, done, Move, finish, arrive, spawned, fetch, run, join,
}
use tonio.Ctl.Spawn.Slots.{finishes}
use tonio.Ctl.Spawn.Join.{join_returns}

abbrev outs : List (Outcome ℕ ℕ)
outs = returned 10 ∷ returned 20 ∷ []

abbrev failing : List (Outcome ℕ ℕ)
failing = returned 10 ∷ raised 3 ∷ []

abbrev moves : List Move
moves = finish 1 ∷ arrive ∷ finish 0 ∷ []

both_finish : (i : ℕ) → i < 2 → finishes i moves ≡ true
both_finish zero h = refl
both_finish (suc zero) h = refl
both_finish (suc (suc i)) h = absurd (omega arith)

join_returns_example : join (run outs (spawned 2) moves) ≡ done (fetch (map some (10 ∷ 20 ∷ [])))
join_returns_example =
    join_returns outs (10 ∷ 20 ∷ []) moves (refl, (refl, tt)) both_finish (omega arith)
