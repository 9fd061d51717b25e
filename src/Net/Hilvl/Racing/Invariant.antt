-- ===== src/Net/Hilvl/Racing/Invariant.antt =====
-- What every move of the racing attempts keeps.
use tonio.Prelude.{
  ℕ, zero, suc, ◌+◌, ◌<◌, ◌≡◌, refl, ap, subst, Bool, true, false, Option, none, some, List, [],
  ◌∷◌, ◌++◌, arith, length, length-append, count, count-append, one_if, ltb, ◌==◌, if◌then◌else◌,
  inl, inr, Bool-cases, get_elem?, set, total, total-set, total-append,
}
use tonio.Net.Hilvl.Racing.{
  Attempt, fresh, ended, binding, connecting, Race, Move, spawn, creates, binds, connects, crashes,
  crash, start, fails, attempt_connect, step, run, is_ended,
}

-- The sockets of the tasks have been made.
abbrev pub IsMade : ℕ → Attempt → Type 0
IsMade n fresh = Unit
IsMade n ended = Unit
IsMade n (binding s) = s < n
IsMade n (connecting s) = s < n

abbrev pub AllMade : ℕ → List Attempt → Type 0
AllMade n [] = Unit
AllMade n (p ∷ ps) = IsMade n p × AllMade n ps

IsMade-suc : (n : ℕ) (p : Attempt) → IsMade n p → IsMade (suc n) p
IsMade-suc n fresh h = tt
IsMade-suc n ended h = tt
IsMade-suc n (binding s) h = omega arith
IsMade-suc n (connecting s) h = omega arith

AllMade-suc : (n : ℕ) (ps : List Attempt) → AllMade n ps → AllMade (suc n) ps
AllMade-suc n [] h = tt
AllMade-suc n (p ∷ ps) h = (IsMade-suc n p h.0, AllMade-suc n ps h.1)

AllMade-set :
    (n : ℕ) (ps : List Attempt) (i : ℕ) (p : Attempt)
    → AllMade n ps
    → IsMade n p
    → AllMade n (set ps i p)
AllMade-set n [] i p h k = tt
AllMade-set n (q ∷ ps) zero p h k = (k, h.1)
AllMade-set n (q ∷ ps) (suc i) p h k = (h.0, AllMade-set n ps i p h.1 k)

AllMade-get_elem? :
    (n : ℕ) (ps : List Attempt) (i : ℕ) (p : Attempt)
    → AllMade n ps
    → get_elem? ps i ≡ some p
    → IsMade n p
AllMade-get_elem? n [] i p h k = absurd (cc k)
AllMade-get_elem? n (q ∷ ps) zero p h k = let e : q ≡ p = cc k in subst (IsMade n) e h.0
AllMade-get_elem? n (q ∷ ps) (suc i) p h k = AllMade-get_elem? n ps i p h.1 k

AllMade-append : (n : ℕ) (ps : List Attempt) → AllMade n ps → AllMade n (ps ++ fresh ∷ [])
AllMade-append n [] h = (tt, tt)
AllMade-append n (p ∷ ps) h = (h.0, AllMade-append n ps h.1)

abbrev pub Lost : Option ℕ → ℕ → List ℕ → List Attempt → Type 0
Lost none c errs ps = length errs + c ≡ total (λ p. one_if (is_ended p)) ps
Lost (some w) c errs ps = Unit

abbrev pub Won : Option ℕ → ℕ → Type 0
Won none n = Unit
Won (some w) n = w < n

-- Every socket made is open once; a winner is one of them; and without one, each ended task has left
-- an error or crashed.
pub record Inv (r : Race) : Type 0 where
  pub opened : (i : ℕ) → count i r.open_sockets ≡ one_if (ltb i r.made)
  pub made : AllMade r.made r.tasks
  pub winner : Won r.winner r.made
  pub lost : Lost r.winner r.crashed r.errs r.tasks

pub start-Inv : Inv start
unfolding start
start-Inv = record { opened = λ i. ground arith; made = tt; winner = tt; lost = refl }

Won-suc : (w : Option ℕ) (n : ℕ) → Won w n → Won w (suc n)
Won-suc none n h = tt
Won-suc (some w) n h = omega arith

-- A task that was not ended goes on or ends without a winner.
Lost-set :
    (w : Option ℕ) (c : ℕ) (errs : List ℕ) (ps : List Attempt) (i : ℕ) (old new : Attempt)
    → get_elem? ps i ≡ some old
    → is_ended old ≡ false
    → is_ended new ≡ false
    → Lost w c errs ps
    → Lost w c errs (set ps i new)
Lost-set none c errs ps i old new at o n h =
    omega (arith, h, total-set (λ p. one_if (is_ended p)) ps i old new at, ap one_if o, ap one_if n)
Lost-set (some w) c errs ps i old new at o n h = tt

Lost-fails :
    (w : Option ℕ) (c : ℕ) (errs : List ℕ) (e : ℕ) (ps : List Attempt) (i : ℕ) (old : Attempt)
    → get_elem? ps i ≡ some old
    → is_ended old ≡ false
    → Lost w c errs ps
    → Lost w c (errs ++ e ∷ []) (set ps i ended)
Lost-fails none c errs e ps i old at o h = omega (
  arith,
  h,
  total-set (λ p. one_if (is_ended p)) ps i old ended at,
  ap one_if o,
  length-append errs (e ∷ []),
)
Lost-fails (some w) c errs e ps i old at o h = tt

Lost-spawn :
    (w : Option ℕ) (c : ℕ) (errs : List ℕ) (ps : List Attempt)
    → Lost w c errs ps
    → Lost w c errs (ps ++ fresh ∷ [])
Lost-spawn none c errs ps h =
    omega (arith, h, total-append (λ p. one_if (is_ended p)) ps (fresh ∷ []))
Lost-spawn (some w) c errs ps h = tt

fails-Inv :
    (i e : ℕ) (old : Attempt) (r : Race)
    → get_elem? r.tasks i ≡ some old
    → is_ended old ≡ false
    → Inv r
    → Inv (fails i e r)
unfolding fails
fails-Inv i e old r at o v = record {
  opened = v.opened;
  made = AllMade-set r.made r.tasks i ended v.made tt;
  winner = v.winner;
  lost = Lost-fails r.winner r.crashed r.errs e r.tasks i old at o v.lost;
}

Lost-crash :
    (w : Option ℕ) (c : ℕ) (errs : List ℕ) (ps : List Attempt) (i : ℕ) (old : Attempt)
    → get_elem? ps i ≡ some old
    → is_ended old ≡ false
    → Lost w c errs ps
    → Lost w (suc c) errs (set ps i ended)
Lost-crash none c errs ps i old at o h =
    omega (arith, h, total-set (λ p. one_if (is_ended p)) ps i old ended at, ap one_if o)
Lost-crash (some w) c errs ps i old at o h = tt

crash-Inv :
    (i : ℕ) (old : Attempt) (r : Race)
    → get_elem? r.tasks i ≡ some old
    → is_ended old ≡ false
    → Inv r
    → Inv (crash i r)
unfolding crash
crash-Inv i old r at o v = record {
  opened = v.opened;
  made = AllMade-set r.made r.tasks i ended v.made tt;
  winner = v.winner;
  lost = Lost-crash r.winner r.crashed r.errs r.tasks i old at o v.lost;
}

create-Inv :
    (local : Bool) (i : ℕ) (r : Race)
    → get_elem? r.tasks i ≡ some fresh
    → Inv r
    → Inv (attempt_connect local i (some fresh) (creates i none) r)
unfolding attempt_connect
create-Inv local i r at v = record {
  opened = λ k. rw count-append (ground (arith, v.opened k));
  made =
      AllMade-set (suc r.made) r.tasks i _ (AllMade-suc r.made r.tasks v.made) (new-IsMade local);
  winner = Won-suc r.winner r.made v.winner;
  lost = Lost-set r.winner r.crashed r.errs r.tasks i fresh _ at refl (new-open local) v.lost;
}
  where
    new-IsMade : (l : Bool) → IsMade (suc r.made) (if l then binding r.made else connecting r.made)
    new-IsMade true = omega arith
    new-IsMade false = omega arith

    new-open : (l : Bool) → is_ended (if l then binding r.made else connecting r.made) ≡ false
    new-open true = refl
    new-open false = refl

attempt_connect-Inv :
    (local : Bool) (i : ℕ) (p : Option Attempt) (m : Move) (r : Race)
    → get_elem? r.tasks i ≡ p
    → Inv r
    → Inv (attempt_connect local i p m r)
unfolding attempt_connect
attempt_connect-Inv local i (some fresh) (creates _ (some e)) r at v =
    fails-Inv i e fresh r at refl v
attempt_connect-Inv local i (some fresh) (creates _ none) r at v = create-Inv local i r at v
attempt_connect-Inv local i (some (binding s)) (binds _ (some e)) r at v =
    fails-Inv i e (binding s) r at refl v
attempt_connect-Inv local i (some (binding s)) (binds _ none) r at v = record {
  opened = v.opened;
  made =
      AllMade-set r.made r.tasks i _ v.made
        (AllMade-get_elem? r.made r.tasks i (binding s) v.made at);
  winner = v.winner;
  lost = Lost-set r.winner r.crashed r.errs r.tasks i (binding s) _ at refl refl v.lost;
}
attempt_connect-Inv local i (some (connecting s)) (connects _ (some e)) r at v =
    fails-Inv i e (connecting s) r at refl v
attempt_connect-Inv local i (some (connecting s)) (connects _ none) r at v = record {
  opened = v.opened;
  made = AllMade-set r.made r.tasks i ended v.made tt;
  winner = AllMade-get_elem? r.made r.tasks i (connecting s) v.made at;
  lost = tt;
}
attempt_connect-Inv local i (some fresh) (crashes _) r at v = crash-Inv i fresh r at refl v
attempt_connect-Inv local i (some (binding s)) (crashes _) r at v =
    crash-Inv i (binding s) r at refl v
attempt_connect-Inv local i (some (connecting s)) (crashes _) r at v =
    crash-Inv i (connecting s) r at refl v
attempt_connect-Inv local i p m r at v = v

step-Inv : (local : Bool) (n : ℕ) (r : Race) (m : Move) → Inv r → Inv (step local n r m)
unfolding step
step-Inv local n r spawn v = elim (Bool-cases (length r.tasks == n)) [
  | inl h ↦ rw h v
  | inr h ↦ rw h (record {
    opened = v.opened;
    made = AllMade-append r.made r.tasks v.made;
    winner = v.winner;
    lost = Lost-spawn r.winner r.crashed r.errs r.tasks v.lost;
  })
]
step-Inv local n r (creates i e) v = attempt_connect-Inv local i (get_elem? r.tasks i) _ r refl v
step-Inv local n r (binds i e) v = attempt_connect-Inv local i (get_elem? r.tasks i) _ r refl v
step-Inv local n r (connects i e) v = attempt_connect-Inv local i (get_elem? r.tasks i) _ r refl v
step-Inv local n r (crashes i) v = attempt_connect-Inv local i (get_elem? r.tasks i) _ r refl v

pub run-Inv : (local : Bool) (n : ℕ) (r : Race) (ms : List Move) → Inv r → Inv (run local n r ms)
unfolding run
run-Inv local n r [] v = v
run-Inv local n r (m ∷ ms) v = run-Inv local n (step local n r m) ms (step-Inv local n r m v)
