-- ===== src/Ctl/Spawn/Slots.antt =====
-- What any moves make of the barrier, the errors and the slots of results.
use tonio.Prelude.{
  ℕ, ◌+◌, ◌<◌, ◌≡◌, refl, ap, ◌∙◌, Bool, true, false, ◌||◌, Option, none, some, List, [], ◌∷◌, ◌++◌,
  append_assoc, append-nil, sym, arith, get_elem?, length, length-set, get_elem?-set, leb, ◌==◌,
  if◌then◌else◌,
}
use tonio.Ctl.Spawn.{
  ack, Outcome, returned, raised, escaped, Spawned, Move, finish, arrive, record_outcome, acked,
  step, run,
}

abbrev pub finishes : ℕ → List Move → Bool
finishes i [] = false
finishes i (finish j ∷ ms) = j == i || finishes i ms
finishes i (arrive ∷ ms) = finishes i ms

module _ {V : Type 0} where
  abbrev pub slot_after : Option V → Option (Option V) → Option (Option V)
  slot_after none old = old
  slot_after (some v) old = some (some v)

  -- Two writes to one slot: the first under `a`, the second under `b`.
  slot_twice :
      (a b : Bool) (u v : Option V) (old mid end : Option (Option V))
      → (a ≡ true → u ≡ v)
      → mid ≡ (if a then slot_after u old else old)
      → end ≡ (if b then slot_after v mid else mid)
      → end ≡ (if a || b then slot_after v old else old)
  slot_twice true b u none old mid end e f g = ground (arith, e refl)
  slot_twice true b u (some v) old mid end e f g = ground (arith, e refl)
  slot_twice false b u v old mid end e f g = ground arith

module _ {V E : Type 0} where
  abbrev pub value_of : Option (Outcome V E) → Option V
  value_of (some (returned v)) = some v
  value_of _ = none

  abbrev pub error_of : Option (Outcome V E) → List E
  error_of (some (raised e)) = e ∷ []
  error_of _ = []

  -- The exceptions of the coroutines, in the order in which these finish.
  abbrev pub errors_of : List (Outcome V E) → List Move → List E
  errors_of outs [] = []
  errors_of outs (finish i ∷ ms) = error_of (get_elem? outs i) ++ errors_of outs ms
  errors_of outs (arrive ∷ ms) = errors_of outs ms

  errs-record :
      (i : ℕ) (o : Option (Outcome V E)) (s : Spawned V E)
      → (record_outcome i o s).errs ≡ s.errs ++ error_of o
  unfolding record_outcome
  errs-record i none s = sym (append-nil s.errs)
  errs-record i (some (returned v)) s = sym (append-nil s.errs)
  errs-record i (some (raised e)) s = refl
  errs-record i (some escaped) s = sym (append-nil s.errs)

  res-record :
      (j : ℕ) (o : Option (Outcome V E)) (s : Spawned V E)
      → (length (record_outcome j o s).res ≡ length s.res)
        × ((i : ℕ)
            → i < length s.res
            → get_elem? (record_outcome j o s).res i
              ≡ (if j == i then slot_after (value_of o) (get_elem? s.res i) else get_elem? s.res i))
  unfolding record_outcome
  res-record j none s = (refl, λ i h. ground arith)
  res-record j (some (returned v)) s =
      (length-set s.res j (some v), λ i h. get_elem?-set s.res j i (some v) h)
  res-record j (some (raised e)) s = (refl, λ i h. ground arith)
  res-record j (some escaped) s = (refl, λ i h. ground arith)

  module _ (outs : List (Outcome V E)) where
    -- Every move is one `ack`, and the event is set as soon as the count is complete.
    pub barrier-run :
        (s : Spawned V E) (ms : List Move)
        → s.barrier.event ≡ leb s.barrier.value s.barrier.count
        → ((run outs s ms).barrier.count ≡ s.barrier.count + length ms)
          × ((run outs s ms).barrier.value ≡ s.barrier.value)
          × ((run outs s ms).barrier.event
              ≡ leb (run outs s ms).barrier.value (run outs s ms).barrier.count)
    unfolding run step record_outcome acked ack
    barrier-run s [] h = (omega arith, refl, h)
    barrier-run s (arrive ∷ ms) h = ground (arith, barrier-run (step outs s arrive) ms)
    barrier-run s (finish i ∷ ms) h = ground (arith, barrier-run (step outs s (finish i)) ms)

    pub errs-run :
        (s : Spawned V E) (ms : List Move) → (run outs s ms).errs ≡ s.errs ++ errors_of outs ms
    unfolding run step record_outcome acked
    errs-run s [] = sym (append-nil s.errs)
    errs-run s (arrive ∷ ms) = errs-run (acked s) ms
    errs-run s (finish i ∷ ms) =
        errs-run (acked (record_outcome i (get_elem? outs i) s)) ms
        ∙ ap (λ l. l ++ errors_of outs ms) (errs-record i (get_elem? outs i) s)
        ∙ append_assoc s.errs _ _

    -- A slot holds what its coroutine returned, once that has finished.
    pub slot-run :
        (s : Spawned V E) (ms : List Move)
        → (length (run outs s ms).res ≡ length s.res)
          × ((i : ℕ)
              → i < length s.res
              → get_elem? (run outs s ms).res i ≡ (
                  if finishes i ms
                  then slot_after (value_of (get_elem? outs i)) (get_elem? s.res i)
                  else get_elem? s.res i))
    unfolding run step acked
    slot-run s [] = (refl, λ i h. refl)
    slot-run s (arrive ∷ ms) = slot-run (acked s) ms
    slot-run s (finish j ∷ ms) =
        let t = record_outcome j (get_elem? outs j) s in
        let (len, get) = res-record j (get_elem? outs j) s in
        let (len', get') = slot-run (acked t) ms in
        (
          len' ∙ len,
          λ i h.
              slot_twice (j == i) (finishes i ms) (value_of (get_elem? outs j)) _
                (get_elem? s.res i) _ _ (λ e. ap (λ k. value_of (get_elem? outs k)) (ground arith))
                (get i h) (get' i (omega (arith, len, h))),
        )
