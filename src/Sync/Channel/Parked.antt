-- ===== src/Sync/Channel/Parked.antt =====
-- A receiver that waits is found by the next push or close: its event is set or in the deque.
use tonio.Prelude.{
  ℕ, zero, suc, ◌<◌, ◌≡◌, ◌≢◌, replicate, ◌⊎◌, inl, inr, refl, ap, ◌∙◌, true, ◌||◌, some, List, [],
  ◌∷◌, ◌++◌, arith, elem, get_elem?, set, ◌==◌,
}
use tonio.Sync.Waiters.{Events, new_event, set_event, Phase, idle, waiting}
use tonio.Sync.Channel.{set_if, set_all, front, behind}

-- The receivers that wait, each on an event that was made.
abbrev pub Parked : List Phase → List ℕ → Events → Type 0
Parked ts ws es =
    (i e : ℕ)
    → get_elem? ts i ≡ some (waiting e)
    → (e < es.made) × ((es.flag e ≡ true) ⊎ (elem e ws ≡ true))

pub set_event-flag : (d e : ℕ) (es : Events) → (set_event d es).1.flag e ≡ (es.flag e || d == e)
unfolding set_event
set_event-flag d e es = ground arith

pub set_event-made : (d : ℕ) (es : Events) → (set_event d es).1.made ≡ es.made
unfolding set_event
set_event-made d es = ground arith

pub set_all-made : (ws : List ℕ) (es : Events) → (set_all ws es).made ≡ es.made
unfolding set_all
set_all-made [] es = refl
set_all-made (d ∷ ws) es = set_all-made ws (set_event d es).1 ∙ set_event-made d es

pub set_all-flag :
    (e : ℕ) (ws : List ℕ) (es : Events) → (set_all ws es).flag e ≡ (es.flag e || elem e ws)
unfolding set_all
set_all-flag e [] es = ground arith
set_all-flag e (d ∷ ws) es =
    set_all-flag e ws (set_event d es).1
    ∙ ap (λ b. b || elem e ws) (set_event-flag d e es)
    ∙ ground arith

elem-append : (e : ℕ) (xs ys : List ℕ) → elem e (xs ++ ys) ≡ (elem e xs || elem e ys)
elem-append e [] ys = refl
elem-append e (x ∷ xs) ys = ground (arith, elem-append e xs ys)

-- A task that waits is the one that was put there, or waited before.
set_waiting :
    (ts : List Phase) (i j e : ℕ) (p : Phase)
    → get_elem? (set ts i p) j ≡ some (waiting e)
    → (p ≡ waiting e) ⊎ (get_elem? ts j ≡ some (waiting e))
set_waiting [] i j e p h = inr h
set_waiting (t ∷ ts) zero zero e p h = inl (cc h)
set_waiting (t ∷ ts) zero (suc j) e p h = inr h
set_waiting (t ∷ ts) (suc i) zero e p h = inr h
set_waiting (t ∷ ts) (suc i) (suc j) e p h = set_waiting ts i j e p h

pub idle-Parked :
    (i : ℕ) (ts : List Phase) (ws : List ℕ) (es : Events)
    → Parked ts ws es
    → Parked (set ts i idle) ws es
idle-Parked i ts ws es v j e h = elim (set_waiting ts i j e idle h) [
  | inl q ↦ absurd (cc q)
  | inr q ↦ v j e q
]

pub wait-Parked :
    (i : ℕ) (ts : List Phase) (ws : List ℕ) (es : Events)
    → Parked ts ws es
    → Parked (set ts i (waiting es.made)) (ws ++ es.made ∷ []) (new_event es)
unfolding new_event
wait-Parked i ts ws es v j e h = elim (set_waiting ts i j e (waiting es.made) h) [
  | inl q ↦ ground (arith, q, elem-append e ws (es.made ∷ []))
  | inr q ↦ ground (arith, v j e q, elem-append e ws (es.made ∷ []))
]

pub push-Parked :
    (ts : List Phase) (ws : List ℕ) (es : Events)
    → Parked ts ws es
    → Parked ts (behind ws) (set_if (front ws) es)
unfolding set_if
push-Parked ts [] es v j e h = v j e h
push-Parked ts (d ∷ ws) es v j e h =
    ground (arith, v j e h, set_event-flag d e es, set_event-made d es)

pub drain-Parked :
    (ts : List Phase) (ws : List ℕ) (es : Events) → Parked ts ws es → Parked ts [] (set_all ws es)
drain-Parked ts ws es v j e h = ground (arith, v j e h, set_all-flag e ws es, set_all-made ws es)

-- A new event that nobody waits on.
pub made-Parked :
    (ts : List Phase) (ws : List ℕ) (es : Events) → Parked ts ws es → Parked ts ws (new_event es)
unfolding new_event
made-Parked ts ws es v j e h = ground (arith, v j e h)

pub none_wait : (k i e : ℕ) → get_elem? (replicate k idle) i ≢ some (waiting e)
none_wait zero i e h = cc h
none_wait (suc k) zero e h = cc h
none_wait (suc k) (suc i) e h = none_wait k i e h

pub set-Parked :
    (d : ℕ) (ts : List Phase) (ws : List ℕ) (es : Events)
    → Parked ts ws es
    → Parked ts ws (set_event d es).1
set-Parked d ts ws es v j e h = ground (arith, v j e h, set_event-flag d e es, set_event-made d es)
