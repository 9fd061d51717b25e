-- ===== src/Ctl/Blocking/Places.antt =====
-- The state and the slots of a blocking task at each place of its thread, and that the steps of the
-- thread keep this.
use tonio.Prelude.{
  ◌≡◌, ◌⊎◌, inl, inr, refl, sym, ap, subst, ◌∙◌, Bool, true, false, Option, none, some,
}
use tonio.Ctl.Blocking.{
  TaskState, queued, running, cancelled, done, Ret, ok, err, Thread, idle, calling, filled, over,
  returned, tagged, gives, raises, unwound, Phase, waiting, waiting_again, ended, Task, is_err,
  begun, advance, begin_step, end_step,
}

module _ {V E : Type 0} where
  unfoldable pub Fields : Task V E → TaskState → Option Bool → Option (Ret V E) → Bool → Type 0
  Fields t state tag value event =
      (t.state ≡ state) × (t.tag ≡ tag) × (t.value ≡ value) × (t.event ≡ event)

  -- What the function's call has given, if it has ended.
  abbrev pub answer : Thread V E → Option (Ret V E)
  answer idle = none
  answer calling = none
  answer (returned r) = some r
  answer (tagged r) = some r
  answer (filled r) = some r
  answer (over r) = r

  -- What a step of the thread keeps: the answer of the call, and that it is never made.
  unfoldable pub Later : Task V E → Task V E → Type 0
  Later t u =
      ((r : Ret V E) → answer t.thread ≡ some r → answer u.thread ≡ some r)
      × (t.state ≡ cancelled → (u.state ≡ cancelled) × (answer u.thread ≡ none))
      × (u.phase ≡ t.phase)
      × (u.state ≡ cancelled → t.state ≡ cancelled)

module _ {V E : Type 0} (abort_error : E) where
  -- What the state and the slots are at each place of the thread.
  unfoldable pub Slots : Thread V E → Task V E → Type 0
  unfolding Fields
  Slots idle t =
      Fields t queued none none false ⊎ Fields t cancelled (some true) (some (err abort_error)) true
  Slots calling t = Fields t running none none false
  Slots (returned r) t = Fields t running none none false
  Slots (tagged r) t = Fields t running (some (is_err r)) none false
  Slots (filled r) t = Fields t running (some (is_err r)) (some r) false
  Slots (over (some r)) t = Fields t done (some (is_err r)) (some r) true
  Slots (over none) t = Fields t cancelled (some true) (some (err abort_error)) true

  -- What an end says of the call, where `c` is whether the coroutine was cancelled on the way: only
  -- then the second slot may be empty, or the call not made at all.
  abbrev pub Right : Bool → Phase V E → Task V E → Type 0
  Right c waiting t = Unit
  Right c waiting_again t = Unit
  Right c (ended (gives x)) t =
      (v : V) × (answer t.thread ≡ some (ok v)) × ((x ≡ some (ok v)) ⊎ ((c ≡ true) × (x ≡ none)))
  Right c (ended (raises x)) t =
      ((e : E) × (answer t.thread ≡ some (err e))
        × ((x ≡ some (err e)) ⊎ ((c ≡ true) × (x ≡ none))))
      ⊎ ((t.state ≡ cancelled)
          × (answer t.thread ≡ none)
          × (x ≡ some (err abort_error))
          × (c ≡ true))
  Right c (ended unwound) t = c ≡ true

  pub Later-Right :
      (c : Bool) (p : Phase V E) (t u : Task V E) → Later t u → Right c p t → Right c p u
  unfolding Later
  Later-Right c waiting t u l h = tt
  Later-Right c waiting_again t u l h = tt
  Later-Right c (ended (gives x)) t u l (v, a, h) = (v, l.0 (ok v) a, h)
  Later-Right c (ended (raises x)) t u l (inl (e, a, h)) = inl (e, l.0 (err e) a, h)
  Later-Right c (ended (raises x)) t u l (inr (st, a, h, k)) = inr ((l.1 st).0, (l.1 st).1, h, k)
  Later-Right c (ended unwound) t u l h = h

  -- What holds of a task behind a step of the thread.
  unfoldable pub Kept : Task V E → Task V E → Type 0
  Kept t u = Slots u.thread u × Later t u

  Slots-cancelled :
      (th : Thread V E) (t : Task V E) → Slots th t → t.state ≡ cancelled → answer th ≡ none
  unfolding Slots Fields
  Slots-cancelled idle t h k = refl
  Slots-cancelled calling t h k = refl
  Slots-cancelled (returned r) t (st, g, v, e) k = absurd (cc (st, k))
  Slots-cancelled (tagged r) t (st, g, v, e) k = absurd (cc (st, k))
  Slots-cancelled (filled r) t (st, g, v, e) k = absurd (cc (st, k))
  Slots-cancelled (over (some r)) t (st, g, v, e) k = absurd (cc (st, k))
  Slots-cancelled (over none) t h k = refl

  same-Kept : (t : Task V E) → Slots t.thread t → Kept t t
  unfolding Kept Later
  same-Kept t h = (h, (λ r a. a, λ k. (k, Slots-cancelled t.thread t h k), refl, λ k. k))

  begun-Kept :
      (st : TaskState) (t : Task V E)
      → st ≡ t.state
      → idle ≡ t.thread
      → Slots idle t
      → Kept t (begun st t)
  unfolding begun Slots Fields Later Kept
  begun-Kept queued t q w (inl (st, g, v, e)) = (
    (refl, g, v, e),
    (λ r a. absurd (cc (a, ap answer w)), λ k. absurd (cc (q, k)), refl, λ k. absurd (cc k)),
  )
  begun-Kept queued t q w (inr (st, g, v, e)) = absurd (cc (q, st))
  begun-Kept cancelled t q w (inl (st, g, v, e)) = absurd (cc (q, st))
  begun-Kept cancelled t q w (inr h) =
      (h, (λ r a. absurd (cc (a, ap answer w)), λ k. (k, refl), refl, λ k. k))
  begun-Kept running t q w (inl (st, g, v, e)) = absurd (cc (q, st))
  begun-Kept running t q w (inr (st, g, v, e)) = absurd (cc (q, st))
  begun-Kept done t q w (inl (st, g, v, e)) = absurd (cc (q, st))
  begun-Kept done t q w (inr (st, g, v, e)) = absurd (cc (q, st))

  pub begin_step-Kept :
      (th : Thread V E) (t : Task V E)
      → th ≡ t.thread
      → Slots t.thread t
      → Kept t (begin_step abort_error th t)
  unfolding begin_step
  begin_step-Kept idle t q h = begun-Kept t.state t refl q (subst (λ k. Slots k t) (sym q) h)
  begin_step-Kept calling t q h = same-Kept t h
  begin_step-Kept (returned r) t q h = same-Kept t h
  begin_step-Kept (tagged r) t q h = same-Kept t h
  begin_step-Kept (filled r) t q h = same-Kept t h
  begin_step-Kept (over r) t q h = same-Kept t h

  pub end_step-Kept :
      (th : Thread V E) (r : Ret V E) (t : Task V E)
      → th ≡ t.thread
      → Slots t.thread t
      → Kept t (end_step abort_error th r t)
  unfolding end_step Slots Fields Later Kept
  end_step-Kept calling r t q h =
      let (st, g, v, e) = subst (λ k. Slots k t) (sym q) h in
      ((st, g, v, e), (λ r a. absurd (cc (a, ap answer q)), λ k. absurd (cc (st, k)), refl, λ k. k))
  end_step-Kept idle r t q h = same-Kept t h
  end_step-Kept (returned o) r t q h = same-Kept t h
  end_step-Kept (tagged o) r t q h = same-Kept t h
  end_step-Kept (filled o) r t q h = same-Kept t h
  end_step-Kept (over o) r t q h = same-Kept t h

  pub advance-Kept :
      (th : Thread V E) (t : Task V E) → th ≡ t.thread → Slots t.thread t → Kept t (advance th t)
  unfolding advance Slots Fields Later Kept
  advance-Kept idle t q h = same-Kept t h
  advance-Kept calling t q h = same-Kept t h
  advance-Kept (over o) t q h = same-Kept t h
  advance-Kept (returned o) t q h =
      let (st, g, v, e) = subst (λ k. Slots k t) (sym q) h in
      (
        (st, refl, v, e),
        (λ r a. ap answer q ∙ a, λ k. absurd (cc (st, k)), refl, λ k. absurd (cc (st, k))),
      )
  advance-Kept (tagged o) t q h =
      let (st, g, v, e) = subst (λ k. Slots k t) (sym q) h in
      (
        (st, g, refl, e),
        (λ r a. ap answer q ∙ a, λ k. absurd (cc (st, k)), refl, λ k. absurd (cc (st, k))),
      )
  advance-Kept (filled o) t q h =
      let (st, g, v, e) = subst (λ k. Slots k t) (sym q) h in
      (
        (refl, g, v, refl),
        (λ r a. ap answer q ∙ a, λ k. absurd (cc (st, k)), refl, λ k. absurd (cc k)),
      )
