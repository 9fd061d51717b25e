-- ===== src/Ctl/Spawn/Join.antt =====
-- `join` waits for every wrapper, and gives the results in the order of the call.
use tonio.Prelude.{
  ℕ, zero, suc, ◌+◌, ◌<◌, ◌≤◌, ◌≡◌, refl, ap, ap₂, ◌∙◌, true, Option, none, some, List, [], ◌∷◌,
  sym, map, arith, get_elem?, length, length-replicate, length-map, list_ext, replicate, leb,
}
use tonio.Ctl.Spawn.{
  Outcome, returned, raised, escaped, pending, group, done, Move, finish, arrive, spawned, fetch,
  run, or_group, join, map_results, new_barrier,
}
use tonio.Ctl.Spawn.Slots.{
  finishes, slot_after, value_of, error_of, errors_of, barrier-run, errs-run, slot-run,
}

module _ {V E : Type 0} where
  -- The barrier after any moves on a fresh call.
  barrier_open :
      (outs : List (Outcome V E)) (n : ℕ) (ms : List Move)
      → (run outs (spawned n) ms).barrier.event ≡ leb (n + 1) (length ms)
  unfolding spawned new_barrier
  barrier_open outs n ms =
      let b = barrier-run outs (spawned n) ms (ground arith) in
      b.2 ∙ ap₂ leb b.1 (b.0 ∙ omega arith)

  pub join_open :
      (outs : List (Outcome V E)) (n : ℕ) (ms : List Move)
      → n < length ms
      → let s = run outs (spawned n) ms in join s ≡ or_group s.errs (fetch s.res)
  unfolding join
  join_open outs n ms h = ground (arith, barrier_open outs n ms)

  -- While fewer than all `n` wrappers and the joining task have reached the barrier, `join` waits.
  pub join_waits :
      (outs : List (Outcome V E)) (n : ℕ) (ms : List Move)
      → length ms ≤ n
      → join (run outs (spawned n) ms) ≡ pending
  unfolding join
  join_waits outs n ms h = ground (arith, barrier_open outs n ms)

  -- Every coroutine returns, with these values.
  abbrev pub Return : List (Outcome V E) → List V → Type 0
  Return [] [] = Unit
  Return (returned w ∷ outs) (v ∷ vs) = (w ≡ v) × Return outs vs
  Return _ _ = ⊥

  slot_returned :
      (outs : List (Outcome V E)) (vs : List V) (i : ℕ) (old : Option (Option V))
      → Return outs vs
      → i < length vs
      → slot_after (value_of (get_elem? outs i)) old ≡ get_elem? (map some vs) i
  slot_returned outs [] i old r h = absurd (omega arith)
  slot_returned (returned w ∷ outs) (v ∷ vs) zero old r h = ap (λ u. some (some u)) r.0
  slot_returned (returned w ∷ outs) (v ∷ vs) (suc i) old r h =
      slot_returned outs vs i old r.1 (omega arith)
  slot_returned [] (v ∷ vs) i old r h = absurd r
  slot_returned (raised e ∷ outs) (v ∷ vs) i old r h = absurd r
  slot_returned (escaped ∷ outs) (v ∷ vs) i old r h = absurd r

  errors_at :
      (outs : List (Outcome V E)) (vs : List V) (i : ℕ)
      → Return outs vs
      → error_of (get_elem? outs i) ≡ []
  errors_at [] vs i r = refl
  errors_at (returned w ∷ outs) (v ∷ vs) zero r = refl
  errors_at (returned w ∷ outs) (v ∷ vs) (suc i) r = errors_at outs vs i r.1
  errors_at (returned w ∷ outs) [] i r = absurd r
  errors_at (raised e ∷ outs) [] i r = absurd r
  errors_at (raised e ∷ outs) (v ∷ vs) i r = absurd r
  errors_at (escaped ∷ outs) [] i r = absurd r
  errors_at (escaped ∷ outs) (v ∷ vs) i r = absurd r

  errors_none :
      (outs : List (Outcome V E)) (vs : List V) (ms : List Move)
      → Return outs vs
      → errors_of outs ms ≡ []
  errors_none outs vs [] r = refl
  errors_none outs vs (arrive ∷ ms) r = errors_none outs vs ms r
  errors_none outs vs (finish i ∷ ms) r = rw (errors_at outs vs i r) (errors_none outs vs ms r)

  slots_full :
      (outs : List (Outcome V E)) (vs : List V) (ms : List Move)
      → Return outs vs
      → ((i : ℕ) → i < length vs → finishes i ms ≡ true)
      → (run outs (spawned (length vs)) ms).res ≡ map some vs
  unfolding spawned
  slots_full outs vs ms r h =
      let (len, get) = slot-run outs (spawned (length vs)) ms in
      let empty : Option V = none in
      let k = length-replicate (length vs) empty in
      list_ext _ _ (len ∙ k ∙ sym (length-map vs some)) (λ i hi.
        let hv : i < length vs = omega (arith, len, k) in
        ground (
          arith,
          get i (omega (arith, k)),
          h i hv,
          slot_returned outs vs i (get_elem? (replicate (length vs) none) i) r hv,
        ))

  -- Once every wrapper and the joining task have reached the barrier, and every coroutine has
  -- returned, `join` gives the values in the order of the call, whatever order they finished in.
  pub join_returns :
      (outs : List (Outcome V E)) (vs : List V) (ms : List Move)
      → Return outs vs
      → ((i : ℕ) → i < length vs → finishes i ms ≡ true)
      → length vs < length ms
      → join (run outs (spawned (length vs)) ms) ≡ done (fetch (map some vs))
  unfolding or_group spawned
  join_returns outs vs ms r h n =
      join_open outs (length vs) ms n
      ∙ ap₂ or_group (errs-run outs (spawned (length vs)) ms ∙ errors_none outs vs ms r)
          (ap fetch (slots_full outs vs ms r h))

  -- Once they all have reached it, and the coroutines that finished raised some exceptions, `join`
  -- raises the group of exactly these, in the order in which the coroutines finished.
  pub join_raises :
      (outs : List (Outcome V E)) (n : ℕ) (ms : List Move) (e : E) (es : List E)
      → errors_of outs ms ≡ e ∷ es
      → n < length ms
      → join (run outs (spawned n) ms) ≡ group (e ∷ es)
  unfolding or_group spawned
  join_raises outs n ms e es h lt =
      join_open outs n ms lt
      ∙ ap (λ l. or_group l (fetch (run outs (spawned n) ms).res))
          (errs-run outs (spawned n) ms ∙ h)

-- `map` gives a list of the slots, also where `fetch` unwraps a single one.
map_results-fetch : {V : Type 0} (xs : List (Option V)) → map_results (fetch xs) ≡ xs
unfolding map_results fetch
map_results-fetch [] = refl
map_results-fetch (x ∷ []) = refl
map_results-fetch (x ∷ y ∷ r) = refl
