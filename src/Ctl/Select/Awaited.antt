-- ===== src/Ctl/Select/Awaited.antt =====
-- `select` of tonio/_colored/_ctl.py with `Scope` of tonio/_colored/_scope.py: here the result is
-- fetched inside the block, before `cancel`, and the end of the block closes the scope, behind a
-- `yield_now` during which coroutines go on to end.
use tonio.Prelude.{
  ℕ, ◌≡◌, refl, sym, ap, subst, ◌∙◌, ◌||◌, ◌==◌, Option, none, some, List, [], ◌∷◌, ◌++◌, length,
  elem, get_elem?, upto, if◌then◌else◌, Bool-cases, inl, inr,
}
use tonio.Scope.{Scope, End, new, incr, leave, cancel, call, wrapper}
use tonio.Ctl.Spawn.{Outcome}
use tonio.Ctl.Select.{
  Stored, Selected, pending, mismatch, Hop, stores, closes, Select, started, finish, run, unpack,
  settle, select, store,
}
use tonio.Ctl.Select.Choosing.{
  last_result, closed, or_else, or_else-none, or_else_assoc, run-endings, run-lem, sentinel-run,
  res-run, started-Fresh, opening, endings, opening-run, select_from,
}
use tonio.Ctl.Select.Opening.{Fresh, leave-lem}
use tonio.Scope.Aborts.{reached_waits, run-append}
use tonio.Scope

wrapper-leave : (r : End) (i : ℕ) (s : Scope) → (wrapper r i (leave s)).1 ≡ leave (wrapper r i s).1
unfolding wrapper leave incr
wrapper-leave Scope.returned i s = elim (Bool-cases (s.consumed == 1)) [
  | inl h ↦ rw (h, wrapper, leave) refl
  | inr h ↦ rw (h, wrapper, leave) refl
]
wrapper-leave Scope.unwound i s = elim (Bool-cases (s.consumed == 1)) [
  | inl h ↦ rw (h, wrapper, leave) refl
  | inr h ↦ rw (h, wrapper, leave) refl
]
wrapper-leave (Scope.raised n) i s = elim (Bool-cases (s.consumed == 1)) [
  | inl h ↦ rw (h, wrapper, leave) refl
  | inr h ↦ rw (h, wrapper, leave) refl
]

wrapper-cancel :
    (r : End) (i : ℕ) (s : Scope) → (wrapper r i (cancel s).1).1 ≡ (cancel (wrapper r i s).1).1
unfolding wrapper cancel
wrapper-cancel Scope.returned i s = refl
wrapper-cancel Scope.unwound i s = refl
wrapper-cancel (Scope.raised n) i s = refl

module _ {V E : Type 0} where
  -- `__aexit__`: `hs` happens in its `yield_now`; then it waits for the waiter of `_exit`, on every way
  -- out of the block.
  pub exit_block : List (Outcome V E) → List Hop → Select V E → Option (List ℕ) × Scope
  exit_block outs hs s = call (run outs (record s { scope = leave s.scope }) hs).scope

  -- The TypeError of unpacking None comes before `cancel`.
  pub fetched :
      List (Outcome V E)
      → List Hop
      → Option (Stored V E)
      → Select V E
      → Selected V E × (Option (List ℕ) × Scope)
  unfolding exit_block
  fetched outs hs none s = (mismatch, exit_block outs hs s)
  fetched outs hs (some r) s =
      (unpack (some r), exit_block outs hs (record s { scope = (cancel s.scope).1 }))

  -- The parts `hs` are done when the caller is resumed, and `ls` while the block ends.
  unfoldable pub select_awaited :
      List (Outcome V E) → List Hop → List Hop → Selected V E × (Option (List ℕ) × Scope)
  unfolding fetched
  select_awaited outs hs ls =
      let s = run outs (started (length outs)) hs in
      if s.sentinel then fetched outs ls s.res s else (pending, (none, s.scope))

  module _ (outs : List (Outcome V E)) where
    -- What commutes with the ends of single coroutines commutes with all of them.
    through :
        (f : Scope → Scope)
        → ((r : End) (i : ℕ) (s : Scope) → (wrapper r i (f s)).1 ≡ f (wrapper r i s).1)
        → (s : Select V E) (hs : List Hop)
        → (run outs (record s { scope = f s.scope }) hs).scope ≡ f (run outs s hs).scope
    unfolding run finish
    through f h s [] = refl
    through f h s (stores i ∷ hs) = through f h (finish outs s (stores i)) hs
    through f h s (closes i ∷ hs) =
        ap (λ t. (run outs (record s { scope = t }) hs).scope) (h _ i s.scope)
        ∙ through f h (finish outs s (closes i)) hs

    run-split :
        (s : Select V E) (hs ls : List Hop) → run outs s (hs ++ ls) ≡ run outs (run outs s hs) ls
    unfolding run
    run-split s [] ls = refl
    run-split s (h ∷ hs) ls = run-split (finish outs s h) hs ls

    last_result-append :
        (hs ls : List Hop)
        → last_result outs (hs ++ ls) ≡ or_else (last_result outs ls) (last_result outs hs)
    last_result-append [] ls = sym (or_else-none (last_result outs ls))
    last_result-append (stores i ∷ hs) ls =
        ap (λ o. or_else o (store (get_elem? outs i) none)) (last_result-append hs ls)
        ∙ sym (
            or_else_assoc (last_result outs ls) (last_result outs hs)
              (store (get_elem? outs i) none))
    last_result-append (closes i ∷ hs) ls = last_result-append hs ls

    later_result :
        (o : Option (Stored V E)) (r : Stored V E)
        → (v : Stored V E) × (or_else o (some r) ≡ some v)
    later_result (some a) r = (a, refl)
    later_result none r = (r, refl)

    exit_block-lem :
        (hs ls : List Hop)
        → let s = run outs (started (length outs)) hs in
          exit_block outs ls s ≡ call (leave (run outs (started (length outs)) (hs ++ ls)).scope)
    unfolding exit_block
    exit_block-lem hs ls =
        let s : Select V E = run outs (started (length outs)) hs in
        ap call (through leave wrapper-leave s ls)
        ∙ ap (λ (t : Select V E). call (leave t.scope))
            (sym (run-split (started (length outs)) hs ls))

    exit_cancelled :
        (hs ls : List Hop)
        → let s = run outs (started (length outs)) hs in
          exit_block outs ls (record s { scope = (cancel s.scope).1 })
          ≡ call (leave (cancel (run outs (started (length outs)) (hs ++ ls)).scope).1)
    unfolding exit_block
    exit_cancelled hs ls =
        let s : Select V E = run outs (started (length outs)) hs in
        ap call (
          through leave wrapper-leave (record s { scope = (cancel s.scope).1 }) ls
          ∙ ap leave (through (λ t. (cancel t).1) wrapper-cancel s ls))
        ∙ ap (λ (t : Select V E). call (leave (cancel t.scope).1))
            (sym (run-split (started (length outs)) hs ls))

  module _ (outs : List (Outcome V E)) (i : ℕ) (hs ls : List Hop) where
    awaited_from :
        let s = run outs (started (length outs)) (stores i ∷ hs) in
        select_awaited outs (stores i ∷ hs) ls
        ≡ fetched outs ls (last_result outs (stores i ∷ hs)) s
    unfolding select_awaited started run finish
    awaited_from =
        let s : Select V E = run outs (started (length outs)) (stores i ∷ hs) in
        ap (λ b. if b then fetched outs ls s.res s else (pending, (none, s.scope)))
          (sentinel-run outs (finish outs (started (length outs)) (stores i)) hs refl)
        ∙ ap (λ r. fetched outs ls r s)
            (res-run outs (started (length outs)) (stores i ∷ hs)
              ∙ or_else-none (last_result outs (stores i ∷ hs)))

    -- Coroutine `i` has stored its result, and then the parts `hs` are done when the caller is resumed,
    -- with one of the results being a value or an Exception, and the parts `ls` are done in the
    -- `yield_now` of `__aexit__`. Then the `select` of the coloured module gives what the other `select`
    -- gives behind `hs`, and aborts and waits for what the other does where also `ls` was done before
    -- its caller was resumed.
    pub awaited_agrees :
        (r : Stored V E)
        → last_result outs (stores i ∷ hs) ≡ some r
        → let a = select_awaited outs (stores i ∷ hs) ls in
          (a.0 ≡ (select outs (stores i ∷ hs)).0) × (a.1 ≡ (select outs (stores i ∷ (hs ++ ls))).1)
    unfolding settle fetched
    awaited_agrees r h =
        let s : Select V E = run outs (started (length outs)) (stores i ∷ hs) in
        let t : Select V E = run outs (started (length outs)) (stores i ∷ (hs ++ ls)) in
        let (v, k) = later_result outs (last_result outs ls) r in
        let later : last_result outs (stores i ∷ (hs ++ ls)) ≡ some v =
          last_result-append outs (stores i ∷ hs) ls ∙ ap (or_else (last_result outs ls)) h ∙ k in
        let a = awaited_from ∙ ap (λ o. fetched outs ls o s) h in
        (
          ap (λ x. x.0) a
              ∙ sym (ap (λ x. x.0) (select_from outs i hs ∙ ap (λ o. settle o s.scope) h)),
          ap (λ x. x.1) a
              ∙ exit_cancelled outs (stores i ∷ hs) ls
              ∙ sym (
                  ap (λ x. x.1) (select_from outs i (hs ++ ls) ∙ ap (λ o. settle o t.scope) later)),
        )

    left_run :
        Scope.run new (opening outs ++ (endings outs (stores i ∷ (hs ++ ls)) ++ Scope.leaving ∷ []))
        ≡ leave (run outs (started (length outs)) (stores i ∷ (hs ++ ls))).scope
    unfolding Scope.run Scope.step
    left_run =
        let ms = endings outs (stores i ∷ (hs ++ ls)) in
        sym (run-append new (opening outs) (ms ++ Scope.leaving ∷ []))
        ∙ sym (run-append (Scope.run new (opening outs)) ms (Scope.leaving ∷ []))
        ∙ ap (λ t. leave (Scope.run t ms)) (opening-run outs)
        ∙ ap leave (run-endings outs (started (length outs)) (stores i ∷ (hs ++ ls)))

    -- If all results stored so far are those of coroutines that let a BaseException by, it fails to
    -- unpack its result, but first waits for the events of all coroutines: it has aborted none, and of
    -- these events only those are set whose part is done.
    pub awaited_waits :
        last_result outs (stores i ∷ hs) ≡ none
        → let r = select_awaited outs (stores i ∷ hs) ls in
          (r.0 ≡ mismatch)
          × (r.1.0 ≡ some (upto (length outs)))
          × (r.1.1.aborted ≡ [])
          × ((e : ℕ) → r.1.1.events.flag e ≡ elem e (closed (hs ++ ls)))
    unfolding fetched Fresh
    awaited_waits h =
        let n = length outs in
        let all : List Hop = stores i ∷ (hs ++ ls) in
        let s : Select V E = run outs (started n) all in
        let (st, m, f, w, c, k) = started-Fresh outs n in
        let (st', w', f', k') = run-lem outs (started n) all in
        let (st'', w'', c'', e'') = leave-lem s.scope in
        let (waits, aborts, events) =
          reached_waits (opening outs ++ (endings outs all ++ Scope.leaving ∷ [])) (leave s.scope)
            left_run (w'' ∙ w' ∙ w) (c'' ∙ k' ∙ k) in
        subst
          (λ (r : Selected V E × (Option (List ℕ) × Scope)).
            (r.0 ≡ mismatch)
            × (r.1.0 ≡ some (upto n))
            × (r.1.1.aborted ≡ [])
            × ((e : ℕ) → r.1.1.events.flag e ≡ elem e (closed (hs ++ ls))))
          (sym (
            awaited_from
            ∙ ap (λ o. fetched outs ls o (run outs (started n) (stores i ∷ hs))) h
            ∙ ap (λ x. (mismatch, x)) (exit_block-lem outs (stores i ∷ hs) ls)))
          (
            refl,
            waits ∙ ap some (st'' ∙ st' ∙ st),
            aborts,
            λ e.
                ap (λ es. es.flag e) (events ∙ e'')
                ∙ f' e
                ∙ ap (λ b. b || elem e (closed (hs ++ ls))) (f e),
          )
