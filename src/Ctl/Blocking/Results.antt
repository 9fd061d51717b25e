-- ===== src/Ctl/Blocking/Results.antt =====
-- What `spawn_blocking` gives, against what the function's call gave.
use tonio.Prelude.{
  ◌≡◌, ◌⊎◌, inl, inr, refl, sym, subst, Bool, true, false, ◌||◌, Option, none, some, List, [], ◌∷◌,
  if◌then◌else◌,
}
use tonio.Ctl.Blocking.{
  TaskState, queued, running, cancelled, done, Phase, waiting, waiting_again, ended, Task, Move,
  begin, ends, next, wake, cancel, submitted, abort, unpacked, checked, finished, resumed, thrown,
  step, run,
}
use tonio.Ctl.Blocking.Places.{
  Fields, Slots, Right, Later, Later-Right, Kept, begin_step-Kept, end_step-Kept, advance-Kept,
}
use tonio.Ctl.Blocking.Stores.{fetched-Right, Right-more, Slots-agree, queued-Slots, stored}

or_true : (c : Bool) → (c || true) ≡ true
or_true true = refl
or_true false = refl

or_assoc : (a b c : Bool) → ((a || b) || c) ≡ (a || (b || c))
or_assoc true b c = refl
or_assoc false b c = refl

module _ {V E : Type 0} where
  abbrev is_cancel : Move V E → Bool
  is_cancel cancel = true
  is_cancel _ = false

  -- Whether CancelledError is thrown in at some point.
  abbrev pub cancels : List (Move V E) → Bool
  cancels [] = false
  cancels (m ∷ ms) = is_cancel m || cancels ms

module _ {V E : Type 0} (abort_error : E) where
  -- The invariant; `c` is whether the coroutine was cancelled.
  Good : Bool → Task V E → Type 0
  Good c t =
      Slots abort_error t.thread t
      × Right abort_error c t.phase t
      × (t.state ≡ cancelled → c ≡ true)

  -- A flag that stays as it is.
  more_false : (c : Bool) (t : Task V E) → Good c t → Good (c || false) t
  more_false true t h = h
  more_false false t h = h

  -- `checked` behind a cancellation, where nothing is stored.
  aborted-Good :
      (st : TaskState) (t : Task V E)
      → st ≡ t.state
      → Slots abort_error t.thread t
      → Good true (record (abort abort_error st t) { phase = waiting_again })
  unfolding Good abort Fields
  aborted-Good queued t q h = (
    Slots-agree abort_error t.thread (abort abort_error queued t) _ (refl, refl, refl, refl)
        (queued-Slots abort_error t.thread t q h),
    tt,
    λ k. refl,
  )
  aborted-Good running t q h =
      (Slots-agree abort_error t.thread t _ (refl, refl, refl, refl) h, tt, λ k. refl)
  aborted-Good cancelled t q h =
      (Slots-agree abort_error t.thread t _ (refl, refl, refl, refl) h, tt, λ k. refl)
  aborted-Good done t q h =
      (Slots-agree abort_error t.thread t _ (refl, refl, refl, refl) h, tt, λ k. refl)

  fetched-Good :
      (c b : Bool) (t : Task V E)
      → t.tag ≡ some b
      → (c ≡ true) ⊎ (t.event ≡ true)
      → Slots abort_error t.thread t
      → (t.state ≡ cancelled → c ≡ true)
      → Good c (record t { phase = ended (unpacked abort_error b t.value) })
  unfolding Good Fields
  fetched-Good c b t g w h k =
      let u : Task V E = record t { phase = ended (unpacked abort_error b t.value) } in
      (
        Slots-agree abort_error t.thread t u (refl, refl, refl, refl) h,
        fetched-Right abort_error c b u.thread u refl
            (Slots-agree abort_error t.thread t u (refl, refl, refl, refl) h) g w k,
        k,
      )

  checked-Good :
      (g : Option Bool) (t : Task V E)
      → t.tag ≡ g
      → Slots abort_error t.thread t
      → Good true (checked abort_error g t)
  unfolding checked
  checked-Good none t q h = aborted-Good t.state t refl h
  checked-Good (some b) t q h = fetched-Good true b t q (inl refl) h (λ k. refl)

  -- A wait that the event ends.
  woken_first :
      (c : Bool) (g : Option Bool) (t : Task V E)
      → t.tag ≡ g
      → t.event ≡ true
      → Good c t
      → Good c (checked abort_error g t)
  unfolding checked Good
  woken_first c none t n w (h, r, k) = absurd (stored abort_error t.thread t h n w)
  woken_first c (some b) t n w (h, r, k) = fetched-Good c b t n (inr w) h k

  woken_second :
      (c : Bool) (g : Option Bool) (t : Task V E)
      → t.tag ≡ g
      → t.event ≡ true
      → Good c t
      → Good c (finished abort_error g t)
  unfolding finished Good
  woken_second c none t n w (h, r, k) = absurd (stored abort_error t.thread t h n w)
  woken_second c (some b) t n w (h, r, k) = fetched-Good c b t n (inr w) h k

  woken-Good :
      (c : Bool) (p : Phase V E) (t : Task V E)
      → t.event ≡ true
      → Good c t
      → Good c (resumed abort_error p t)
  unfolding resumed
  woken-Good c waiting t w h = woken_first c t.tag t refl w h
  woken-Good c waiting_again t w h = woken_second c t.tag t refl w h
  woken-Good c (ended e) t w h = h

  thrown-Good :
      (p : Phase V E) (c : Bool) (t : Task V E)
      → p ≡ t.phase
      → Good c t
      → Good true (thrown abort_error p t)
  unfolding thrown Good Fields
  thrown-Good waiting c t q (h, r, k) = checked-Good t.tag t refl h
  thrown-Good waiting_again c t q (h, r, k) =
      (Slots-agree abort_error t.thread t _ (refl, refl, refl, refl) h, refl, λ k. refl)
  thrown-Good (ended e) c t q (h, r, k) = (h, Right-more abort_error c t.phase t r, λ k. refl)

  Kept-Good : (c : Bool) (t u : Task V E) → Kept abort_error t u → Good c t → Good c u
  unfolding Kept Good Later
  Kept-Good c t u (h, l) (h', r, k) = (
    h,
    subst (λ p. Right abort_error c p u) (sym l.2) (Later-Right abort_error c t.phase t u l r),
    λ z. k (l.3 z),
  )

  wake-Good :
      (c b : Bool) (t : Task V E) → t.event ≡ b → Good c t → Good c (step abort_error t wake)
  unfolding step
  wake-Good c true t e h =
      subst (λ b. Good c (if b then resumed abort_error t.phase t else t)) (sym e)
        (woken-Good c t.phase t e h)
  wake-Good c false t e h =
      subst (λ b. Good c (if b then resumed abort_error t.phase t else t)) (sym e) h

  step-Good :
      (c : Bool) (t : Task V E) (m : Move V E)
      → Good c t
      → Good (c || is_cancel m) (step abort_error t m)
  unfolding step Good
  step-Good c t begin h =
      more_false c _ (Kept-Good c t _ (begin_step-Kept abort_error t.thread t refl h.0) h)
  step-Good c t (ends r) h =
      more_false c _ (Kept-Good c t _ (end_step-Kept abort_error t.thread r t refl h.0) h)
  step-Good c t next h =
      more_false c _ (Kept-Good c t _ (advance-Kept abort_error t.thread t refl h.0) h)
  step-Good c t wake h = more_false c _ (wake-Good c t.event t refl h)
  step-Good c t cancel h =
      subst (λ b. Good b (thrown abort_error t.phase t)) (sym (or_true c))
        (thrown-Good t.phase c t refl h)

  run-Good :
      (c : Bool) (t : Task V E) (ms : List (Move V E))
      → Good c t
      → Good (c || cancels ms) (run abort_error t ms)
  unfolding run
  run-Good c t [] h = more_false c t h
  run-Good c t (m ∷ ms) h =
      subst (λ b. Good b (run abort_error (step abort_error t m) ms))
        (or_assoc c (is_cancel m) (cancels ms))
        (run-Good (c || is_cancel m) (step abort_error t m) ms (step-Good c t m h))

  -- Under any schedule: where `spawn_blocking` gives a value, the function's call has ended with it, and
  -- where it raises, the call has ended with that exception, or it was cancelled in the queue and is
  -- never made. Only a coroutine that was cancelled can see such a call, or fetch the result between
  -- its two stores, and then the value or the exception is None; and only such a coroutine ends in
  -- CancelledError of its own.
  pub blocking_result :
      (ms : List (Move V E))
      → let t = run abort_error submitted ms in Right abort_error (cancels ms) t.phase t
  unfolding Good submitted Slots Fields
  blocking_result ms =
      (run-Good false submitted ms (inl (refl, refl, refl, refl), tt, λ k. absurd (cc k))).1
