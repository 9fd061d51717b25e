-- ===== src/Ctl/Select/Opening.antt =====
-- The scope of a `select` while its tasks start and end.
use tonio.Prelude.{
  unset, ℕ, zero, suc, ◌+◌, ◌≡◌, refl, sym, ap, ap₂, subst, ◌∙◌, Bool, true, false, ◌||◌, none,
  List, [], ◌∷◌, ◌++◌, arith, count, upto, ltb, if◌then◌else◌, replicate, ◌==◌, Bool-cases, inl,
  inr,
}
use tonio.Scope.{Scope, End, new, enter, wrapper, Move, spawn, track, incr, leave, cancel, call}
use tonio.Scope
use tonio.Sync.Waiters.{Events, new_event, set_event}
use tonio.Ctl.Select.{spawn_all}

-- The scope of a `select` that has started its first tasks.
unfoldable pub Fresh : Scope → ℕ → Type 0
Fresh s n =
    (s.stack ≡ upto n)
    × (s.events.made ≡ n)
    × ((e : ℕ) → s.events.flag e ≡ false)
    × (s.waiter ≡ none)
    × (s.consumed ≡ 1)
    × (s.cancelled ≡ false)

spawn-Fresh : (s : Scope) (n : ℕ) → Fresh s n → Fresh (spawn s) (suc n)
unfolding Fresh spawn track new_event
spawn-Fresh s n (st, m, f, w, c, k) =
    rw (ap (ltb 1) c) (ap₂ (λ l k. l ++ k ∷ []) st m, ap suc m, λ e. ground (arith, f e), w, c, k)

pub spawn_all-Fresh : (n m : ℕ) (s : Scope) → Fresh s m → Fresh (spawn_all n s) (m + n)
unfolding spawn_all
spawn_all-Fresh zero m s h = subst (Fresh s) (omega arith) h
spawn_all-Fresh (suc n) m s h =
    subst (Fresh (spawn_all n (spawn s))) (omega arith)
      (spawn_all-Fresh n (suc m) (spawn s) (spawn-Fresh s m h))

pub spawn_all-run : (n : ℕ) (s : Scope) → Scope.run s (replicate n Scope.spawning) ≡ spawn_all n s
unfolding spawn_all Scope.run Scope.step
spawn_all-run zero s = refl
spawn_all-run (suc n) s = spawn_all-run n (spawn s)

set_event-flag : (i e : ℕ) (es : Events) → (set_event i es).1.flag e ≡ (es.flag e || i == e)
unfolding set_event
set_event-flag i e es = elim (Bool-cases (es.flag i)) [
  | inl h ↦ elim (Bool-cases (i == e)) [
    | inl q ↦
        rw (h, q)
          (let at : es.flag e ≡ true = ap es.flag (sym (ground (arith, q))) ∙ h in rw at refl)
    | inr q ↦ rw (h, q) (ground arith)
  ]
  | inr h ↦ rw h (ground arith)
]

-- A wrapper that ends sets its event and leaves the rest of the scope alone.
pub wrapper-lem :
    (r : End) (i : ℕ) (s : Scope)
    → let t = (wrapper r i s).1 in
      (t.stack ≡ s.stack)
      × (t.waiter ≡ s.waiter)
      × ((e : ℕ) → t.events.flag e ≡ (s.events.flag e || i == e))
      × (t.cancelled ≡ s.cancelled)
unfolding Scope.wrapper
wrapper-lem Scope.returned i s = (refl, refl, λ e. set_event-flag i e s.events, refl)
wrapper-lem Scope.unwound i s = (refl, refl, λ e. set_event-flag i e s.events, refl)
wrapper-lem (Scope.raised n) i s = (refl, refl, λ e. set_event-flag i e s.events, refl)

-- Leaving the block changes the counter alone.
pub leave-lem :
    (s : Scope)
    → ((leave s).stack ≡ s.stack)
      × ((leave s).waiter ≡ s.waiter)
      × ((leave s).cancelled ≡ s.cancelled)
      × ((leave s).events ≡ s.events)
unfolding leave incr
leave-lem s = elim (Bool-cases (s.consumed == 1)) [
  | inl q ↦ rw (q, leave) (refl, refl, refl, refl)
  | inr q ↦ rw (q, leave) (refl, refl, refl, refl)
]

pub count-unset_if :
    (f : ℕ → Bool) (e : ℕ) (es : List ℕ) → count e (unset f es) ≡ (if f e then 0 else count e es)
count-unset_if f e [] = ground arith
count-unset_if f e (d ∷ es) = elim (Bool-cases (d == e)) [
  | inl q ↦
      let at : f d ≡ f e = ap f (ground (arith, q)) in
      rw (at) (ground (arith, q, count-unset_if f e es))
  | inr q ↦ ground (arith, q, count-unset_if f e es)
]
