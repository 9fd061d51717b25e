-- ===== src/Ctl/Joining/Agreement.antt =====
-- `without_results` against `spawn`, and `block_on` against `select`.
use tonio.Prelude.{
  ℕ, ◌≡◌, refl, ap, ◌∙◌, Option, none, some, List, [], ◌∷◌, get_elem?, Bool-cases, inl, inr,
}
use tonio.Ctl.Spawn.{
  Outcome, returned, raised, escaped, Barrier, ack, Move, finish, arrive, Spawned, spawned,
}
use tonio.Ctl.Spawn as Spawn
use tonio.Ctl.Select.{stores, select}
use tonio.Ctl.Joining.{
  Tracked, Joined, waiting, finished, group, tracked, or_group, join, record_error, acked, step,
  run, block_on, outcome,
}

module _ {V E : Type 0} where
  -- A `spawn` without its results.
  abbrev forget : Spawned V E → Tracked E
  forget s = record { barrier = s.barrier; errs = s.errs }

  -- What `join` gives, without the results.
  abbrev pub drop_results : Spawn.Joined V E → Joined E
  drop_results Spawn.pending = waiting
  drop_results (Spawn.group es) = group es
  drop_results (Spawn.done r) = finished

  forget-record :
      (i : ℕ) (o : Option (Outcome V E)) (s : Spawned V E)
      → record_error o (forget s) ≡ forget (Spawn.record_outcome i o s)
  unfolding record_error Spawn.record_outcome
  forget-record i none s = refl
  forget-record i (some (returned v)) s = refl
  forget-record i (some (raised e)) s = refl
  forget-record i (some escaped) s = refl

  forget-step :
      (outs : List (Outcome V E)) (s : Spawned V E) (m : Move)
      → step outs (forget s) m ≡ forget (Spawn.step outs s m)
  unfolding step Spawn.step acked Spawn.acked
  forget-step outs s arrive = refl
  forget-step outs s (finish i) = ap acked (forget-record i (get_elem? outs i) s)

  forget-run :
      (outs : List (Outcome V E)) (s : Spawned V E) (ms : List Move)
      → run outs (forget s) ms ≡ forget (Spawn.run outs s ms)
  unfolding run Spawn.run
  forget-run outs s [] = refl
  forget-run outs s (m ∷ ms) =
      ap (λ t. run outs t ms) (forget-step outs s m) ∙ forget-run outs (Spawn.step outs s m) ms

  group-forget :
      (es : List E) (r : Spawn.Fetched V) → or_group es ≡ drop_results (Spawn.or_group es r)
  unfolding or_group Spawn.or_group
  group-forget [] r = refl
  group-forget (e ∷ es) r = refl

  join-forget : (s : Spawned V E) → join (forget s) ≡ drop_results (Spawn.join s)
  unfolding join Spawn.join
  join-forget s = elim (Bool-cases s.barrier.event) [
    | inl h ↦ rw h (group-forget s.errs (Spawn.fetch s.res))
    | inr h ↦ rw h refl
  ]

  -- Under every schedule, the task that waits for `spawn.without_results` goes on, and raises, exactly
  -- when and as the one that waits for `spawn` does.
  pub without_results_agrees :
      (outs : List (Outcome V E)) (n : ℕ) (ms : List Move)
      → join (run outs (tracked n) ms) ≡ drop_results (Spawn.join (Spawn.run outs (spawned n) ms))
  unfolding tracked spawned
  without_results_agrees outs n ms =
      ap join (forget-run outs (spawned n) ms) ∙ join-forget (Spawn.run outs (spawned n) ms)

  -- A thread in `block_on` gets what `select` of that coroutine alone gives.
  pub block_on-select : (o : Outcome V E) → block_on (some o) ≡ (select (o ∷ []) (stores 0 ∷ [])).0
  unfolding block_on outcome select
  block_on-select (returned v) = refl
  block_on-select (raised e) = refl
  block_on-select escaped = refl
