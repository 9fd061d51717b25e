-- ===== src/Time/Ticks.antt =====
-- An interval's ticks keep their distance, and do not drift.
use tonio.Prelude.{ℕ, ◌+◌, ◌≤◌, ◌≡◌, refl, sym, subst, ap₂, ◌∙◌, List, [], ◌∷◌, arith}
use tonio.Time.{Interval, poll, ticks}

-- A tick wakes at the deadline or now, whichever is later, and the next deadline is one period on.
poll_spaced :
    (now : ℕ) (i : Interval)
    → let r = poll now i in
      (i.deadline ≤ now + r.0) × (r.1.deadline ≡ (now + r.0) + i.len) × (r.1.len ≡ i.len)
unfolding poll
poll_spaced now i = (ground arith, ground arith, ground arith)

-- Each time is not before the bound, and the next bound is a period on.
abbrev pub Spaced : ℕ → ℕ → List ℕ → Type 0
Spaced len bound [] = Unit
Spaced len bound (t ∷ ts) = (bound ≤ t) × Spaced len (t + len) ts

-- Whenever `tick` is called, no tick wakes before the interval's first deadline, and each wakes at
-- least one period after the one before it.
pub ticks-Spaced : (nows : List ℕ) (i : Interval) → Spaced i.len i.deadline (ticks nows i)
unfolding ticks
ticks-Spaced [] i = tt
ticks-Spaced (now ∷ nows) i =
    let p = poll_spaced now i in
    let i' = (poll now i).1 in
    let rest = subst (λ l. Spaced l i'.deadline (ticks nows i')) p.2 (ticks-Spaced nows i') in
    (p.0, subst (λ d. Spaced i.len d (ticks nows i')) p.1 rest)

-- Each call comes no later than its deadline.
abbrev pub InTime : ℕ → ℕ → List ℕ → Type 0
InTime len deadline [] = Unit
InTime len deadline (now ∷ nows) = (now ≤ deadline) × InTime len (deadline + len) nows

-- The deadlines of the interval, one for each call.
abbrev pub grid : ℕ → ℕ → List ℕ → List ℕ
grid len deadline [] = []
grid len deadline (now ∷ nows) = deadline ∷ grid len (deadline + len) nows

poll_in_time :
    (now : ℕ) (i : Interval)
    → now ≤ i.deadline
    → let r = poll now i in
      (now + r.0 ≡ i.deadline) × (r.1.deadline ≡ i.deadline + i.len) × (r.1.len ≡ i.len)
unfolding poll
poll_in_time now i h = (ground arith, ground arith, ground arith)

-- If every `tick` is called no later than its deadline, the ticks wake exactly at the first deadline
-- and every period after it, however unevenly the calls come: the interval does not drift.
pub ticks_exact :
    (nows : List ℕ) (i : Interval)
    → InTime i.len i.deadline nows
    → ticks nows i ≡ grid i.len i.deadline nows
unfolding ticks
ticks_exact [] i h = refl
ticks_exact (now ∷ nows) i h =
    let p = poll_in_time now i h.0 in
    let i' = (poll now i).1 in
    let first = subst (λ d. InTime i.len d nows) (sym p.1) h.1 in
    ap₂ ◌∷◌ p.0 (
      ticks_exact nows i' (subst (λ l. InTime l i'.deadline nows) (sym p.2) first)
      ∙ ap₂ (λ l d. grid l d nows) p.2 p.1)
