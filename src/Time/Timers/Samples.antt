-- ===== src/Time/Timers/Samples.antt =====
-- A heap that is a list, from which the first of the least is taken.
use tonio.Prelude.{
  ℕ, suc, ◌+◌, ◌≡◌, refl, subst, true, false, Option, none, some, List, [], ◌∷◌, ◌≤◌, arith, length,
  total, one_if, if◌then◌else◌,
}
use tonio.Time.Timers.{Timer, before, Pop, IsHeap, expire}
use tonio.Time.Timers.Firing.{Fired, total_mono, timers_fire}

pop_from : Timer → Option (Timer × List Timer) → Timer × List Timer
unfolding before
pop_from t none = (t, [])
pop_from t (some (u, rest)) = if before u t then (u, t ∷ rest) else (t, u ∷ rest)

pop_first : Pop
unfolding pop_from
pop_first [] = none
pop_first (t ∷ ts) = some (pop_from t (pop_first ts))

-- One timer of a list, which none comes before, and the others.
record Least (ts : List Timer) (r : Timer × List Timer) : Type 0 where
  len : length ts ≡ suc (length r.1)
  all : (w : Timer → ℕ) → total w ts ≡ w r.0 + total w r.1
  first : total (λ u. one_if (before u r.0)) ts ≡ 0

no_earlier : (t u x : Timer) → before u t ≡ false → one_if (before x t) ≤ one_if (before x u)
unfolding before
no_earlier t u x h = ground (arith, h)

pick-Least :
    (t : Timer) (ts : List Timer) (r : Timer × List Timer)
    → Least ts r
    → Least (t ∷ ts) (pop_from t (some r))
unfolding pop_from before
pick-Least t ts (u, rest) v =
    elim (before u t)
        as (λ b. (before u t ≡ b) → Least (t ∷ ts) (if b then (u, t ∷ rest) else (t, u ∷ rest))) [
          | true ↦ λ e. record {
            len = omega (arith, v.len);
            all = λ w. omega (arith, v.all w);
            first = earlier e;
          }
          | false ↦ λ e. record {
            len = omega (arith, v.len);
            all = λ w. omega (arith, v.all w);
            first = later e;
          }
        ]
      refl
  where
    earlier : before u t ≡ true → total (λ x. one_if (before x u)) (t ∷ ts) ≡ 0
    earlier e = ground (arith, e, v.first)

    later : before u t ≡ false → total (λ x. one_if (before x t)) (t ∷ ts) ≡ 0
    later e = ground (
      arith,
      v.first,
      total_mono (λ x. one_if (before x t)) (λ x. one_if (before x u)) ts (λ x. no_earlier t u x e),
    )

pop_first-Least : (t : Timer) (ts : List Timer) → Least (t ∷ ts) (pop_from t (pop_first ts))
unfolding pop_first pop_from before
pop_first-Least t [] = record { len = refl; all = λ w. refl; first = ground arith }
pop_first-Least t (u ∷ us) =
    pick-Least t (u ∷ us) (pop_from u (pop_first us)) (pop_first-Least u us)

pop_first-IsHeap : IsHeap pop_first
unfolding pop_first
pop_first-IsHeap = record {
  pop_none = λ h e. none_left h e;
  pop_length = λ h rest t e. (least h rest t e).len;
  pop_rest = λ h rest t w e. (least h rest t e).all w;
  pop_first = λ h rest t e. (least h rest t e).first;
}
  where
    none_left : (h : List Timer) → pop_first h ≡ none → h ≡ []
    none_left [] e = refl
    none_left (t ∷ ts) e = absurd (cc e)

    least : (h rest : List Timer) (t : Timer) → pop_first h ≡ some (t, rest) → Least h (t, rest)
    least [] rest t e = absurd (cc e)
    least (u ∷ us) rest t e = subst (Least (u ∷ us)) (cc e) (pop_first-Least u us)

abbrev heap : List Timer
heap =
    record { when = 30; target = 0 }
    ∷ record { when = 10; target = 1 }
    ∷ record { when = 20; target = 2 }
    ∷ []

timers_fire_example : let r = expire pop_first (length heap) 20 heap in Fired 20 heap r.0 r.1
timers_fire_example = timers_fire pop_first pop_first-IsHeap 20 heap
