-- ===== src/Ctl/Select/Choosing.antt =====
-- Which result `select` gives, and which coroutines it aborts.
use tonio.Prelude.{
  ℕ, ◌≡◌, refl, sym, ap, subst, ◌∙◌, true, ◌||◌, Option, none, some, List, [], ◌∷◌, ◌++◌, arith,
  get_elem?, length, count, elem, upto, count-upto, ltb, one_if, if◌then◌else◌, replicate,
}
use tonio.Ctl.Spawn.{Outcome}
use tonio.Scope.{Scope, End, new, enter, wrapper, Move, spawn, track, incr, leave, cancel, call}
use tonio.Scope.Aborts.{reached_aborts, run-append}
use tonio.Scope
use tonio.Ctl.Spawn as Spawn
use tonio.Ctl.Select.{
  Stored, pending, Hop, stores, closes, Select, started, store, wrapper_end, finish, run, unpack,
  settle, select,
}
use tonio.Ctl.Select.Opening.{
  Fresh, spawn_all-Fresh, spawn_all-run, wrapper-lem, leave-lem, count-unset_if,
}

-- The first of two results.
abbrev pub or_else {ℓ} : {A : Type ℓ} → Option A → Option A → Option A
or_else (some a) b = some a
or_else none b = b

pub or_else-none {ℓ} : {A : Type ℓ} (a : Option A) → or_else a none ≡ a
or_else-none (some a) = refl
or_else-none none = refl

pub or_else_assoc {ℓ} :
    {A : Type ℓ} (a b c : Option A) → or_else a (or_else b c) ≡ or_else (or_else a b) c
or_else_assoc (some a) b c = refl
or_else_assoc none b c = refl

-- The coroutines whose event in the scope is set.
abbrev pub closed : List Hop → List ℕ
closed [] = []
closed (stores i ∷ hs) = closed hs
closed (closes i ∷ hs) = i ∷ closed hs

module _ {V E : Type 0} where
  -- What the scope sees of the coroutines that end.
  abbrev pub endings : List (Outcome V E) → List Hop → List Move
  endings outs [] = []
  endings outs (stores i ∷ hs) = endings outs hs
  endings outs (closes i ∷ hs) = Scope.ending i (wrapper_end (get_elem? outs i)) ∷ endings outs hs

  module _ (outs : List (Outcome V E)) where
    pub run-endings :
        (s : Select V E) (hs : List Hop)
        → Scope.run s.scope (endings outs hs) ≡ (run outs s hs).scope
    unfolding run finish Scope.run Scope.step
    run-endings s [] = refl
    run-endings s (stores i ∷ hs) = run-endings (finish outs s (stores i)) hs
    run-endings s (closes i ∷ hs) = run-endings (finish outs s (closes i)) hs

    pub run-lem :
        (s : Select V E) (hs : List Hop)
        → let t = run outs s hs in
          (t.scope.stack ≡ s.scope.stack)
          × (t.scope.waiter ≡ s.scope.waiter)
          × ((e : ℕ) → t.scope.events.flag e ≡ (s.scope.events.flag e || elem e (closed hs)))
          × (t.scope.cancelled ≡ s.scope.cancelled)
    unfolding run finish
    run-lem s [] = (refl, refl, λ e. ground arith, refl)
    run-lem s (stores i ∷ hs) = run-lem (finish outs s (stores i)) hs
    run-lem s (closes i ∷ hs) =
        let (st, w, f, c) = wrapper-lem (wrapper_end (get_elem? outs i)) i s.scope in
        let (st', w', f', c') = run-lem (finish outs s (closes i)) hs in
        (st' ∙ st, w' ∙ w, λ e. f' e ∙ ground (arith, f e), c' ∙ c)

    pub sentinel-run :
        (s : Select V E) (hs : List Hop) → s.sentinel ≡ true → (run outs s hs).sentinel ≡ true
    unfolding run finish
    sentinel-run s [] h = h
    sentinel-run s (stores i ∷ hs) h = sentinel-run (finish outs s (stores i)) hs refl
    sentinel-run s (closes i ∷ hs) h = sentinel-run (finish outs s (closes i)) hs h

    -- The result of the last of the coroutines that ended with a value or an Exception.
    abbrev pub last_result : List Hop → Option (Stored V E)
    last_result [] = none
    last_result (stores i ∷ hs) = or_else (last_result hs) (store (get_elem? outs i) none)
    last_result (closes i ∷ hs) = last_result hs

    store-or_else :
        (o : Option (Outcome V E)) (old : Option (Stored V E))
        → store o old ≡ or_else (store o none) old
    unfolding store
    store-or_else (some (Spawn.returned v)) old = refl
    store-or_else (some (Spawn.raised e)) old = refl
    store-or_else (some Spawn.escaped) old = refl
    store-or_else none old = refl

    pub res-run :
        (s : Select V E) (hs : List Hop) → (run outs s hs).res ≡ or_else (last_result hs) s.res
    unfolding run finish
    res-run s [] = refl
    res-run s (stores i ∷ hs) =
        res-run (finish outs s (stores i)) hs
        ∙ ap (or_else (last_result hs)) (store-or_else (get_elem? outs i) s.res)
        ∙ or_else_assoc (last_result hs) (store (get_elem? outs i) none) s.res
    res-run s (closes i ∷ hs) = res-run (finish outs s (closes i)) hs

    pub started-Fresh : (n : ℕ) → Fresh (started {V = V} {E = E} n).scope n
    unfolding started Scope.new Scope.enter Fresh
    started-Fresh n =
        subst (Fresh (started {V = V} {E = E} n).scope) (omega arith)
          (spawn_all-Fresh n 0 (enter new).1 (refl, refl, λ e. refl, refl, refl, refl))

    -- What `select` does once a first coroutine has stored its result.
    pub select_from :
        (i : ℕ) (hs : List Hop)
        → select outs (stores i ∷ hs)
          ≡ settle
              (last_result (stores i ∷ hs))
              (run outs (started (length outs)) (stores i ∷ hs)).scope
    unfolding select started finish run
    select_from i hs =
        let s : Select V E = run outs (started (length outs)) (stores i ∷ hs) in
        ap (λ b. if b then settle s.res s.scope else (pending, (none, s.scope)))
          (sentinel-run (finish outs (started (length outs)) (stores i)) hs refl)
        ∙ ap (λ r. settle r s.scope)
            (res-run (started (length outs)) (stores i ∷ hs)
              ∙ or_else-none (last_result (stores i ∷ hs)))

    settle-result : (o : Option (Stored V E)) (s : Scope) → (settle o s).0 ≡ unpack o
    unfolding settle unpack
    settle-result none s = refl
    settle-result (some r) s = refl

    -- Before any coroutine has ended, `select` waits. Once coroutine `i` has stored its result, and then
    -- the parts `hs` are done, in this order, it gives what the last of the coroutines that have stored a
    -- result, which those that let a BaseException by have not, has given, and fails to unpack its
    -- result if there is none.
    pub select_result :
        (i : ℕ) (hs : List Hop)
        → ((select outs []).0 ≡ pending)
          × ((select outs (stores i ∷ hs)).0 ≡ unpack (last_result (stores i ∷ hs)))
    unfolding select run started
    select_result i hs = (refl, ap (λ r. r.0) (select_from i hs) ∙ settle-result _ _)

    -- The scope that `select` closes, as moves of a new scope.
    abbrev pub opening : List Move
    opening = Scope.entering ∷ replicate (length outs) Scope.spawning

    abbrev closing : List Move
    closing = Scope.cancelling ∷ Scope.leaving ∷ []

    pub opening-run : Scope.run new opening ≡ (started {V = V} {E = E} (length outs)).scope
    unfolding started Scope.run Scope.step
    opening-run = spawn_all-run (length outs) (enter new).1

    closing-run : (s : Scope) → Scope.run s closing ≡ leave (cancel s).1
    unfolding Scope.run Scope.step
    closing-run s = refl

    moves-run :
        (hs : List Hop)
        → Scope.run new (opening ++ (endings outs hs ++ closing))
          ≡ leave (cancel (run outs (started (length outs)) hs).scope).1
    moves-run hs =
        sym (run-append new opening (endings outs hs ++ closing))
        ∙ sym (run-append (Scope.run new opening) (endings outs hs) closing)
        ∙ closing-run _
        ∙ ap (λ t. leave (cancel (Scope.run t (endings outs hs))).1) opening-run
        ∙ ap (λ t. leave (cancel t).1) (run-endings (started (length outs)) hs)

    settled_aborts :
        (hs : List Hop) (e : ℕ)
        → let n = length outs in
          let r = call (leave (cancel (run outs (started n) hs).scope).1) in
          (r.0 ≡ some (upto n))
          × (count e r.1.aborted ≡ (if elem e (closed hs) then 0 else one_if (ltb e n)))
          × (ltb e n ≡ true → r.1.events.flag e ≡ true)
    unfolding Fresh cancel
    settled_aborts hs e =
        let n = length outs in
        let s : Select V E = run outs (started n) hs in
        let (st, m, f, w, c, k) = started-Fresh n in
        let (st', w', f', k') = run-lem (started n) hs in
        let (st'', w'', c'', e'') = leave-lem (cancel s.scope).1 in
        let stack = st'' ∙ st' ∙ st in
        let flags =
          λ (d : ℕ). ap (λ es. es.flag d) e'' ∙ f' d ∙ ap (λ b. b || elem d (closed hs)) (f d) in
        let (waits, aborts, sets) =
          reached_aborts (opening ++ (endings outs hs ++ closing)) _ (moves-run hs) (w'' ∙ w' ∙ w)
            c'' in
        (
          waits ∙ ap some stack,
          ap (count e) aborts
              ∙ count-unset_if (leave (cancel s.scope).1).events.flag e
                  (leave (cancel s.scope).1).stack
              ∙ ground (arith, flags e, ap (count e) stack, count-upto e n),
          λ h. sets e (λ z. ground (arith, ap (count e) stack, count-upto e n)),
        )

    -- Once coroutine `i` has stored its result, and then the parts `hs` are done, with one of the
    -- results being a value or an Exception: `select` aborts once each coroutine whose event in the
    -- scope is not set yet, be its result stored or not, and no other; and the events of all
    -- coroutines, which it still waits for, are set.
    pub select_aborts :
        (i : ℕ) (hs : List Hop) (v : Stored V E) (e : ℕ)
        → last_result (stores i ∷ hs) ≡ some v
        → let n = length outs in
          let r = (select outs (stores i ∷ hs)).1 in
          (r.0 ≡ some (upto n))
          × (count e r.1.aborted ≡ (if elem e (closed hs) then 0 else one_if (ltb e n)))
          × (ltb e n ≡ true → r.1.events.flag e ≡ true)
    unfolding settle
    select_aborts i hs v e h =
        let n = length outs in
        let s : Scope = (run outs (started n) (stores i ∷ hs)).scope in
        subst
          (λ (r : Option (List ℕ) × Scope).
            (r.0 ≡ some (upto n))
            × (count e r.1.aborted ≡ (if elem e (closed hs) then 0 else one_if (ltb e n)))
            × (ltb e n ≡ true → r.1.events.flag e ≡ true))
          (sym (ap (λ r. r.1) (select_from i hs ∙ ap (λ o. settle o s) h)))
          (settled_aborts (stores i ∷ hs) e)
