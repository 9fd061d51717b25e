-- ===== src/Colored/Spawn/Awaiting.antt =====
-- When the object that `spawn` returns can be awaited to its end.
use tonio.Prelude.{
  ℕ, zero, suc, ◌≤◌, ◌≡◌, refl, sym, ap, ap₂, ◌∙◌, Option, none, some, List, [], ◌∷◌, map, arith,
  get_elem?, length, length-map, length-replicate, replicate,
}
use tonio.Ctl.Spawn.{
  Outcome, returned, raised, escaped, Spawned, spawned, Joined, pending, done, fetch, or_group,
  join,
}
use tonio.Ctl.Spawn as Spawn
use tonio.Ctl.Spawn.Join.{join_waits, join_open}
use tonio.Colored.Spawn.{Move, ends, awaits, acked, wrapper, step, run, result}

-- The same move in the module without colour.
abbrev plain : Move → Spawn.Move
plain (ends i) = Spawn.finish i
plain awaits = Spawn.arrive

module _ {V E : Type 0} where
  wrapper_agrees :
      (i : ℕ) (o : Option (Outcome V E)) (s : Spawned V E)
      → wrapper i o s ≡ Spawn.acked (Spawn.record_outcome i o s)
  unfolding wrapper acked Spawn.acked Spawn.record_outcome
  wrapper_agrees i none s = refl
  wrapper_agrees i (some (returned v)) s = refl
  wrapper_agrees i (some (raised e)) s = refl
  wrapper_agrees i (some escaped) s = refl

  step_agrees :
      (outs : List (Outcome V E)) (s : Spawned V E) (m : Move)
      → step outs s m ≡ Spawn.step outs s (plain m)
  unfolding step acked Spawn.acked Spawn.step
  step_agrees outs s (ends i) = wrapper_agrees i (get_elem? outs i) s
  step_agrees outs s awaits = refl

  run_agrees :
      (outs : List (Outcome V E)) (s : Spawned V E) (ms : List Move)
      → run outs s ms ≡ Spawn.run outs s (map plain ms)
  unfolding run Spawn.run
  run_agrees outs s [] = refl
  run_agrees outs s (m ∷ ms) =
      ap (λ t. run outs t ms) (step_agrees outs s m)
      ∙ run_agrees outs (Spawn.step outs s (plain m)) ms

  -- Nothing of the holder is written by tasks that await.
  awaits_keep :
      (outs : List (Outcome V E)) (s : Spawned V E) (k : ℕ)
      → ((run outs s (replicate k awaits)).res ≡ s.res)
        × ((run outs s (replicate k awaits)).errs ≡ s.errs)
  unfolding run step acked
  awaits_keep outs s zero = (refl, refl)
  awaits_keep outs s (suc k) = awaits_keep outs (acked s) k

  result_agrees :
      (outs : List (Outcome V E)) (n : ℕ) (ms : List Move)
      → result (run outs (spawned n) ms) ≡ join (Spawn.run outs (spawned n) (map plain ms))
  unfolding result join
  result_agrees outs n ms = ap result (run_agrees outs (spawned n) ms)

  -- While the wrappers that have ended and the tasks that await are at most as many as the coroutines, each
  -- task that awaits waits. But `n + 1` tasks that await the results of `n` coroutines are enough for
  -- the barrier: with no coroutine ended, all of them are given the empty results.
  pub awaited_early :
      (outs : List (Outcome V E)) (n : ℕ) (ms : List Move)
      → length ms ≤ n
      → (result (run outs (spawned n) ms) ≡ pending)
        × (result (run outs (spawned n) (replicate (suc n) awaits))
            ≡ done (fetch (replicate n none)))
  unfolding spawned or_group
  awaited_early outs n ms h =
      let ks = replicate (suc n) awaits in
      let (r, e) = awaits_keep outs (spawned n) (suc n) in
      (
        result_agrees outs n ms
            ∙ join_waits outs n (map plain ms) (omega (arith, length-map ms plain)),
        result_agrees outs n ks
            ∙ join_open outs n (map plain ks)
                (omega (arith, length-map ks plain, length-replicate (suc n) awaits))
            ∙ ap₂ or_group (ap (λ t. t.errs) (sym (run_agrees outs (spawned n) ks)) ∙ e)
                (ap (λ t. fetch t.res) (sym (run_agrees outs (spawned n) ks)) ∙ ap fetch r),
      )
