-- ===== src/Time/Timers.antt =====
-- The timers of src/runtime.rs: a heap of src/time.rs, where the timer due first is the greatest, what
-- `poll` may sleep, and which timers it hands over. The heap is a parameter, a list in any order
-- with a function that pops.
mod Samples
pub mod Firing
use tonio.Prelude.{
  ℕ, zero, suc, ◌-◌, ◌≡◌, Bool, true, false, Option, none, some, List, [], ◌∷◌, length, total,
  one_if, ltb, leb, if◌then◌else◌, ◌+◌,
}

-- `target` is the suspension.
pub record Timer : Type 0 where
  pub when : ℕ
  pub target : ℕ

-- Whether a timer is due before another: the order of src/time.rs is this, reversed.
unfoldable pub before : Timer → Timer → Bool
before t u = ltb t.when u.when

abbrev pub Pop : Type 0
Pop = List Timer → Option (Timer × List Timer)

-- What the standard library says of BinaryHeap::pop: it fails on an empty heap only, and takes out one
-- element, which no other is greater than.
pub record IsHeap (pop : Pop) : Type 0 where
  pub pop_none : (h : List Timer) → pop h ≡ none → h ≡ []
  pub pop_length :
      (h rest : List Timer) (t : Timer) → pop h ≡ some (t, rest) → length h ≡ suc (length rest)
  pub pop_rest :
      (h rest : List Timer) (t : Timer) (w : Timer → ℕ)
      → pop h ≡ some (t, rest)
      → total w h ≡ w t + total w rest
  pub pop_first :
      (h rest : List Timer) (t : Timer)
      → pop h ≡ some (t, rest)
      → total (λ u. one_if (before u t)) h ≡ 0

unfoldable pub sched_from : ℕ → Option (Timer × List Timer) → Option ℕ
sched_from tick none = none
sched_from tick (some (t, rest)) = if ltb tick t.when then some (t.when - tick) else some 0

module _ (pop : Pop) where
  -- How long `poll` may sleep at the given tick; `none` is for ever.
  unfoldable pub sched_time : ℕ → List Timer → Option ℕ
  unfolding sched_from
  sched_time tick h = sched_from tick (pop h)

  -- The loop of `poll` that pops the due timers, at most so many: these, and the heap that is left.
  unfoldable pub expire : ℕ → ℕ → List Timer → List Timer × List Timer
  expire zero tick h = ([], h)
  expire (suc n) tick h = elim (pop h) [
    | none ↦ ([], h)
    | some r ↦
        let rest = expire n tick r.1 in
        if leb r.0.when tick then (r.0 ∷ rest.0, rest.1) else ([], h)
  ]
