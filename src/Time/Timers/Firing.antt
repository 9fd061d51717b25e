-- ===== src/Time/Timers/Firing.antt =====
-- Every timer that is due fires, in order, and no other.
use tonio.Prelude.{
  ℕ, zero, suc, ◌+◌, ◌≤◌, ◌≡◌, refl, sym, subst, ◌∙◌, ap, Bool, true, false, some, List, [], ◌∷◌,
  arith, length, total, one_if, ◌==◌, ◌&&◌, ltb, leb, Option-cases, Bool-cases, inl, inr,
}
use tonio.Time.Timers.{Timer, before, Pop, IsHeap, sched_from, sched_time, expire}

abbrev pub is_due : ℕ → Timer → ℕ
is_due tick t = one_if (leb t.when tick)

abbrev pub is_early : ℕ → Timer → ℕ
is_early tick t = one_if (ltb tick t.when)

-- In the order of their times.
abbrev pub ordered : List Timer → Bool
ordered [] = true
ordered (t ∷ ts) = (total (λ u. one_if (before u t)) ts == 0) && ordered ts

-- What fires from a heap, and what is left.
pub record Fired (tick : ℕ) (h fired left : List Timer) : Type 0 where
  pub all : (w : Timer → ℕ) → total w h ≡ total w fired + total w left
  pub due : total (is_early tick) fired ≡ 0
  pub not_due : total (is_due tick) left ≡ 0
  pub in_order : ordered fired ≡ true

pub total_mono :
    (v w : Timer → ℕ) (ts : List Timer) → ((u : Timer) → v u ≤ w u) → total v ts ≤ total w ts
total_mono v w [] h = omega arith
total_mono v w (t ∷ ts) h = omega (arith, h t, total_mono v w ts h)

due_before :
    (tick : ℕ) (t u : Timer) → leb t.when tick ≡ false → is_due tick u ≤ one_if (before u t)
unfolding before
due_before tick t u h = ground (arith, h)

empty-Fired : (tick : ℕ) (h : List Timer) → h ≡ [] → Fired tick h [] h
empty-Fired tick [] e = record { all = λ w. refl; due = refl; not_due = refl; in_order = refl }
empty-Fired tick (t ∷ h) e = absurd (cc e)

slept :
    (tick d : ℕ) (t : Timer) (rest : List Timer)
    → sched_from tick (some (t, rest)) ≡ some (suc d)
    → t.when ≡ tick + suc d
unfolding sched_from
slept tick d t rest h = ground (arith, h)

module _ (pop : Pop) (heap : IsHeap pop) where
  -- The first timer is due, and fires before those that fire from the rest.
  first-Fired :
      (tick : ℕ) (h rest fired left : List Timer) (t : Timer)
      → pop h ≡ some (t, rest)
      → leb t.when tick ≡ true
      → Fired tick rest fired left
      → Fired tick h (t ∷ fired) left
  first-Fired tick h rest fired left t e c v = record {
    all = λ w. omega (arith, heap.pop_rest h rest t w e, v.all w);
    due = ground (arith, c, v.due);
    not_due = v.not_due;
    in_order = ground (
      arith,
      v.in_order,
      heap.pop_first h rest t e,
      heap.pop_rest h rest t (λ u. one_if (before u t)) e,
      v.all (λ u. one_if (before u t)),
    );
  }

  -- The first timer is not due, so none is.
  late-Fired :
      (tick : ℕ) (h rest : List Timer) (t : Timer)
      → pop h ≡ some (t, rest)
      → leb t.when tick ≡ false
      → Fired tick h [] h
  late-Fired tick h rest t e c = record {
    all = λ w. omega arith;
    due = refl;
    not_due = omega (
      arith,
      heap.pop_first h rest t e,
      total_mono (is_due tick) (λ u. one_if (before u t)) h (λ u. due_before tick t u c),
    );
    in_order = refl;
  }

  expire-Fired :
      (n tick : ℕ) (h : List Timer)
      → length h ≤ n
      → let r = expire pop n tick h in Fired tick h r.0 r.1
  unfolding expire
  expire-Fired zero tick [] l = empty-Fired tick [] refl
  expire-Fired zero tick (t ∷ h) l = absurd (omega (arith, l))
  expire-Fired (suc n) tick h l = elim (Option-cases (pop h)) [
    | inl e ↦ rw (e, expire) (empty-Fired tick h (heap.pop_none h e))
    | inr p ↦
        let ((t, rest), e) = p in
        let v = expire-Fired n tick rest (omega (arith, l, heap.pop_length h rest t e)) in
        elim (Bool-cases (leb t.when tick)) [
          | inl c ↦ rw (e, expire, c) (first-Fired tick h rest _ _ t e c v)
          | inr c ↦ rw (e, expire, c) (late-Fired tick h rest t e c)
        ]
  ]

  -- The loop of `poll`, given as many rounds as the heap has timers, at any tick: each timer of the heap
  -- fires or is left, once; those that fire are due, and fire in the order of their times; and
  -- none that is left is due.
  pub timers_fire :
      (tick : ℕ) (h : List Timer) → let r = expire pop (length h) tick h in Fired tick h r.0 r.1
  timers_fire tick h = expire-Fired (length h) tick h (omega arith)

  -- Where `poll` sleeps for some time, no timer is due before it is over.
  pub sleeps_short :
      (tick d : ℕ) (h : List Timer)
      → sched_time pop tick h ≡ some (suc d)
      → total (λ u. one_if (ltb u.when (tick + suc d))) h ≡ 0
  unfolding sched_time sched_from before
  sleeps_short tick d h q = elim (Option-cases (pop h)) [
    | inl e ↦ absurd (cc (ap (sched_from tick) (sym e) ∙ q))
    | inr p ↦
        let ((t, rest), e) = p in
        let at : sched_from tick (some (t, rest)) ≡ some (suc d) =
          ap (sched_from tick) (sym e) ∙ q in
        let w : t.when ≡ tick + suc d = slept tick d t rest at in
        subst (λ n. total (λ u. one_if (ltb u.when n)) h ≡ 0) w (heap.pop_first h rest t e)
  ]
