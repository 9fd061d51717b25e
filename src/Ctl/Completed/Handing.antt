-- ===== src/Ctl/Completed/Handing.antt =====
-- The order in which `as_completed` hands out the results.
use tonio.Prelude.{
  ℕ, zero, suc, ◌+◌, ◌-◌, ltb, lt→ltb, subst, ◌≤◌, ◌≡◌, refl, sym, ap, ap₂, ◌∙◌, Bool, true, false,
  Option, none, some, List, [], ◌∷◌, ◌++◌, append_assoc, append-nil, arith, set, get_elem?, length,
  length-append, replicate, upto,
}
use tonio.Ctl.Spawn.{Outcome, returned, raised, escaped}
use tonio.Ctl.Completed.{
  Target, Completed, Loaded, pending, absent, loaded, reverse, pop, started, hand, load, loader,
  finish, run,
}

-- The numbers from `k`, `m` of them, last first.
downto : ℕ → ℕ → List ℕ
downto k zero = []
downto k (suc m) = downto (suc k) m ++ k ∷ []

pop-append {ℓ} : {A : Type ℓ} (xs : List A) (x : A) → pop (xs ++ x ∷ []) ≡ some (x, xs)
unfolding pop
pop-append [] x = refl
pop-append (y ∷ []) x = refl
pop-append (y ∷ z ∷ r) x = rw (pop-append (z ∷ r) x) refl

downto-suc : (k m : ℕ) → downto k (suc m) ≡ (k + m) ∷ downto k m
unfolding downto
downto-suc k zero = ap (λ i. i ∷ []) (omega arith)
downto-suc k (suc m) =
    ap (λ l. l ++ k ∷ []) (downto-suc (suc k) m) ∙ ap (λ i. i ∷ downto k (suc m)) (omega arith)

reverse-snoc {ℓ} : {A : Type ℓ} (xs : List A) (x : A) → reverse (xs ++ x ∷ []) ≡ x ∷ reverse xs
reverse-snoc [] x = refl
reverse-snoc (y ∷ xs) x = ap (λ l. l ++ y ∷ []) (reverse-snoc xs x)

reverse-upto : (n : ℕ) → reverse (upto n) ≡ downto 0 n
unfolding downto
reverse-upto zero = refl
reverse-upto (suc n) =
    reverse-snoc (upto n) n ∙ ap₂ ◌∷◌ (omega arith) (reverse-upto n) ∙ sym (downto-suc 0 n)

set-append {ℓ} :
    {A : Type ℓ} (xs ys : List A) (x y : A)
    → set (xs ++ x ∷ ys) (length xs) y ≡ (xs ++ y ∷ []) ++ ys
set-append [] ys x y = refl
set-append (z ∷ xs) ys x y = ap (◌∷◌ z) (set-append xs ys x y)

module _ {V : Type 0} where
  abbrev pub full : V → Target V
  full v = record { event = true; res = some v }

  abbrev pub empty : Target V
  empty = record { event = false; res = none }

  unfoldable pub fulls : List V → List (Target V)
  fulls [] = []
  fulls (v ∷ vs) = full v ∷ fulls vs

  length-fulls : (vs : List V) → length (fulls vs) ≡ length vs
  unfolding fulls
  length-fulls [] = refl
  length-fulls (v ∷ vs) = ap suc (length-fulls vs)

  fulls-append : (us vs : List V) → fulls (us ++ vs) ≡ fulls us ++ fulls vs
  unfolding fulls
  fulls-append [] vs = refl
  fulls-append (u ∷ us) vs = ap (◌∷◌ (full u)) (fulls-append us vs)

  -- The state once `vs` have been handed out and `m` targets are left.
  Handed : List V → ℕ → Completed V → Type 0
  Handed vs m s = (s.targets ≡ fulls vs ++ replicate m empty) × (s.glues ≡ downto (length vs) m)

  started-Handed : (n : ℕ) (vs : List V) → vs ≡ [] → Handed vs n (started n)
  unfolding Handed fulls started
  started-Handed n [] h = (refl, reverse-upto n)
  started-Handed n (v ∷ vs) h = absurd (cc h)

  hand-Handed :
      (v : V) (vs : List V) (m : ℕ) (s : Completed V)
      → Handed vs (suc m) s
      → Handed (vs ++ v ∷ []) m (hand v (pop s.glues) s)
  unfolding Handed hand downto fulls
  hand-Handed v vs m s (t, g) =
      let popped : pop s.glues ≡ some (length vs, downto (suc (length vs)) m) =
        ap pop g ∙ pop-append _ _ in
      let at : set s.targets (length vs) (full v) ≡ (fulls vs ++ full v ∷ []) ++ replicate m empty =
        ap₂ (λ l i. set l i (full v)) t (sym (length-fulls vs))
        ∙ set-append (fulls vs) _ empty (full v) in
      rw popped (
        at ∙ ap (λ l. l ++ replicate m empty) (sym (fulls-append vs (v ∷ []))),
        ap (λ k. downto k m) (sym (length-append vs (v ∷ []) ∙ omega arith)),
      )

  -- The loader of a target, by whether its result is there and whether the target is.
  abbrev pub expected : Option V → Bool → Loaded V
  expected (some v) b = loaded (some v)
  expected none true = pending
  expected none false = absent

  load-Handed :
      (vs : List V) (m k : ℕ)
      → load (get_elem? (fulls vs ++ replicate m empty) k)
        ≡ expected (get_elem? vs k) (ltb k (length vs + m))
  unfolding load fulls
  load-Handed [] zero k = ground arith
  load-Handed [] (suc m) zero = ground arith
  load-Handed [] (suc m) (suc k) = load-Handed [] m k ∙ ap (expected none) (ground arith)
  load-Handed (v ∷ vs) m zero = refl
  load-Handed (v ∷ vs) m (suc k) =
      load-Handed vs m k ∙ ap (expected (get_elem? vs k)) (ground arith)

  get_elem?-beyond : (vs : List V) (k : ℕ) → length vs ≤ k → get_elem? vs k ≡ none
  get_elem?-beyond [] k h = refl
  get_elem?-beyond (v ∷ vs) zero h = absurd (omega arith)
  get_elem?-beyond (v ∷ vs) (suc k) h = get_elem?-beyond vs k (omega arith)

module _ {V E : Type 0} where
  -- What the coroutines that return give, in the order in which they end.
  abbrev pub values : List (Outcome V E) → List V
  values [] = []
  values (returned v ∷ os) = v ∷ values os
  values (raised e ∷ os) = values os
  values (escaped ∷ os) = values os

  length-values : (os : List (Outcome V E)) → length (values os) ≤ length os
  length-values [] = omega arith
  length-values (returned v ∷ os) = omega (arith, length-values os)
  length-values (raised e ∷ os) = omega (arith, length-values os)
  length-values (escaped ∷ os) = omega (arith, length-values os)

  run-Handed :
      (os : List (Outcome V E)) (vs : List V) (k : ℕ) (s : Completed V)
      → Handed vs (length (values os) + k) s
      → Handed (vs ++ values os) k (run os s)
  unfolding run finish
  run-Handed [] vs k s g =
      subst (λ l. Handed l k s) (sym (append-nil vs)) (subst (λ m. Handed vs m s) (omega arith) g)
  run-Handed (raised e ∷ os) vs k s g = run-Handed os vs k s g
  run-Handed (escaped ∷ os) vs k s g = run-Handed os vs k s g
  run-Handed (returned v ∷ os) vs k s g =
      let more = subst (λ m. Handed vs m s) (omega arith) g in
      let next = hand-Handed v vs (length (values os) + k) s more in
      subst (λ l. Handed l k (run os (hand v (pop s.glues) s)))
        (append_assoc vs (v ∷ []) (values os))
        (run-Handed os (vs ++ v ∷ []) k (hand v (pop s.glues) s) next)

  -- The targets: those of the coroutines that returned, and the others, which are not set.
  pub targets-run :
      (n : ℕ) (os : List (Outcome V E))
      → length os ≤ n
      → (run os (started n)).targets ≡ fulls (values os) ++ replicate (n - length (values os)) empty
  unfolding Handed
  targets-run n os h =
      let all : length (values os) + (n - length (values os)) ≡ n =
        omega (arith, length-values os) in
      (run-Handed os [] (n - length (values os)) (started n)
        (subst (λ m. Handed {V = V} [] m (started n)) (sym all) (started-Handed n [] refl))).0

  -- Of `n` coroutines, those of the list have ended, in this order: the caller's `k`-th loader has the
  -- value of the `k`-th of them that returned, and waits if fewer have returned.
  pub loader_result :
      (n : ℕ) (os : List (Outcome V E)) (k : ℕ)
      → length os ≤ n
      → loader k (run os (started n)) ≡ expected (get_elem? (values os) k) (ltb k n)
  unfolding loader
  loader_result n os k h =
      let left = n - length (values os) in
      let all : length (values os) + left ≡ n = omega (arith, length-values os) in
      ap (λ l. load (get_elem? l k)) (targets-run n os h)
      ∙ load-Handed (values os) left k
      ∙ ap (λ m. expected (get_elem? (values os) k) (ltb k m)) all

  -- When all coroutines have ended and fewer than all have returned, the last loader still waits, with
  -- nothing left to wake it: an exception in one coroutine leaves the caller waiting for ever.
  pub raising_strands :
      (n : ℕ) (os : List (Outcome V E))
      → length os ≡ suc n
      → length (values os) ≤ n
      → loader n (run os (started (suc n))) ≡ pending
  raising_strands n os h less =
      loader_result (suc n) os n (omega arith)
      ∙ ap₂ expected (get_elem?-beyond (values os) n less) (lt→ltb n (suc n) (omega arith))
