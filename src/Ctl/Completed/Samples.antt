-- ===== src/Ctl/Completed/Samples.antt =====
-- Three coroutines, of which one raises.
use tonio.Prelude.{ℕ, ◌≡◌, refl, some, List, [], ◌∷◌, arith, get_elem?, ltb}
use tonio.Ctl.Spawn.{Outcome, returned, raised}
use tonio.Ctl.Completed.{loaded, started, loader, run}
use tonio.Ctl.Completed.Handing.{expected, values, loader_result}

abbrev outs : List (Outcome ℕ ℕ)
outs = returned 30 ∷ raised 1 ∷ returned 10 ∷ []

loader_result_example :
    loader 1 (run outs (started 3)) ≡ expected (get_elem? (values outs) 1) (ltb 1 3)
loader_result_example = loader_result 3 outs 1 (omega arith)

second : loader 1 (run outs (started 3)) ≡ loaded (some 10)
unfolding loader run started
second = refl
