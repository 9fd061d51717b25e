-- ===== src/Sync/Lock/Mutex.antt =====
-- The lock as a mutex with a queue: what `acquire`, `release` and a cancelled wait do, told without
-- events.
use tonio.Prelude.{
  ℕ, ◌≤◌, ◌≡◌, refl, sym, ap, fun_ext, ◌∙◌, Bool, true, false, List, [], ◌∷◌, ◌++◌, arith, count,
  ◌||◌, some, none, unset, unset-update, update, ◌==◌, if◌then◌else◌, Bool-cases, inl, inr,
}
use tonio.Sync.Waiters.{Events, new_event, set_event, drain}
use tonio.Sync.Lock.{Lock, System, acquire, release, abandon, start, run, Move}
use tonio.Sync.Lock.Exclusion.{start-IsSound, run-IsSound}

-- Whether the mutex is taken, and who waits for it, first come first served.
pub record Mutex : Type 0 where
  pub taken : Bool
  pub queue : List ℕ

-- The mutex that a lock stands for: the events that are set already are no waiters.
abbrev pub view : Lock → Events → Mutex
view l es = record { taken = l.state; queue = unset es.flag l.waiters }

-- A mutex is taken, or the new ticket goes to the end of the queue.
abbrev pub take_or_queue : ℕ → Mutex → Mutex
take_or_queue e m = record { taken = true; queue = if m.taken then m.queue ++ e ∷ [] else m.queue }

-- The first in the queue gets the mutex, which otherwise becomes free.
abbrev hand_on : Bool → List ℕ → Mutex
hand_on b [] = record { taken = false; queue = [] }
hand_on b (e ∷ q) = record { taken = b; queue = q }

abbrev pub give_back : Mutex → Mutex
give_back m = hand_on m.taken m.queue

abbrev pub without : ℕ → List ℕ → List ℕ
without e [] = []
without e (d ∷ q) = if d == e then without e q else d ∷ without e q

-- A waiter leaves the queue.
abbrev pub withdraw : ℕ → Mutex → Mutex
withdraw e m = record { taken = m.taken; queue = without e m.queue }

unset-without :
    (f : ℕ → Bool) (e : ℕ) (q : List ℕ) → unset (update f e true) q ≡ without e (unset f q)
unset-without f e [] = refl
unset-without f e (d ∷ q) = elim (Bool-cases (f d)) [
  | inl h ↦ elim (Bool-cases (e == d)) [
    | inl k ↦ rw (h, k) (unset-without f e q)
    | inr k ↦ rw (h, k) (unset-without f e q)
  ]
  | inr h ↦ elim (Bool-cases (e == d)) [
    | inl k ↦ let k' : (d == e) ≡ true = ground (arith, k) in rw (h, k, k') (unset-without f e q)
    | inr k ↦
        let k' : (d == e) ≡ false = ground (arith, k) in
        rw (h, k, k') (ap (◌∷◌ d) (unset-without f e q))
  ]
]

unset-append : (f : ℕ → Bool) (q r : List ℕ) → unset f (q ++ r) ≡ unset f q ++ unset f r
unset-append f [] r = refl
unset-append f (d ∷ q) r = elim (Bool-cases (f d)) [
  | inl h ↦ rw h (unset-append f q r)
  | inr h ↦ rw h (ap (◌∷◌ d) (unset-append f q r))
]

-- What `release` leaves of the queue.
drain-lem :
    (b : Bool) (q : List ℕ) (es : Events)
    → ((e : ℕ) → es.flag e ≡ false → count e q ≤ 1)
    → let d = drain q es in
      record { taken = if d.handed then b else false; queue = unset d.events.flag d.queue }
      ≡ hand_on b (unset es.flag q)
unfolding drain set_event
drain-lem b [] es h = refl
drain-lem b (e ∷ q) es h = elim (Bool-cases (es.flag e)) [
  | inl k ↦ rw k (drain-lem b q es (λ d f. ground (arith, h d f)))
  | inr k ↦
      rw k (
        ap (λ l. record { taken = b; queue = l })
          (unset-update es.flag e q (ground (arith, h e k))))
]

acquire-view :
    (l : Lock) (es : Events)
    → es.flag es.made ≡ false
    → (let (o, l', es') = acquire l es in view l' es') ≡ take_or_queue es.made (view l es)
unfolding acquire new_event
acquire-view l es h = elim (Bool-cases l.state) [
  | inl k ↦
      let same : update es.flag es.made false ≡ es.flag = fun_ext (λ d.
        elim (Bool-cases (es.made == d)) [
          | inl q ↦ rw q (sym (ap es.flag (sym (ground (arith, q))) ∙ h))
          | inr q ↦ rw q refl
        ]) in
      let queued : unset (update es.flag es.made false) (l.waiters ++ es.made ∷ [])
          ≡ unset es.flag l.waiters ++ es.made ∷ [] =
        ap (λ f. unset f (l.waiters ++ es.made ∷ [])) same
        ∙ unset-append es.flag l.waiters (es.made ∷ [])
        ∙ ap (λ b. unset es.flag l.waiters ++ (if b then [] else es.made ∷ [])) h in
      rw (k, acquire) (ap (λ q. record { taken = true; queue = q }) queued)
  | inr k ↦ rw (k, acquire) refl
]

release-view :
    (l : Lock) (es : Events)
    → ((e : ℕ) → es.flag e ≡ false → count e l.waiters ≤ 1)
    → (let (l', es') = release l es in view l' es') ≡ give_back (view l es)
unfolding release
release-view l es h = drain-lem l.state l.waiters es h

abandon-view :
    (e : ℕ) (l : Lock) (es : Events)
    → ((d : ℕ) → es.flag d ≡ false → count d l.waiters ≤ 1)
    → (let (l', es') = abandon e l es in view l' es')
      ≡ (if es.flag e then give_back (view l es) else withdraw e (view l es))
unfolding abandon set_event
abandon-view e l es h = elim (Bool-cases (es.flag e)) [
  | inl k ↦ rw k (release-view l es h)
  | inr k ↦
      rw k (ap (λ q. record { taken = l.state; queue = q }) (unset-without es.flag e l.waiters))
]

-- Whether a ticket is the first in the queue.
abbrev pub is_first : ℕ → List ℕ → Bool
is_first e [] = false
is_first e (d ∷ q) = d == e

-- `release` sets the event of the first waiter, and no other.
drain-flag :
    (q : List ℕ) (es : Events) (d : ℕ)
    → (drain q es).events.flag d ≡ (es.flag d || is_first d (unset es.flag q))
unfolding drain set_event
drain-flag [] es d = ground arith
drain-flag (e ∷ q) es d = elim (Bool-cases (es.flag e)) [
  | inl h ↦ rw h (drain-flag q es d)
  | inr h ↦ elim (Bool-cases (e == d)) [
    | inl q ↦ rw (h, q) (ground arith)
    | inr q ↦ rw (h, q) (ground arith)
  ]
]

release-flag :
    (l : Lock) (es : Events) (d : ℕ)
    → (release l es).1.flag d ≡ (es.flag d || is_first d (view l es).queue)
unfolding release
release-flag l es d = drain-flag l.waiters es d

abandon-flag :
    (e : ℕ) (l : Lock) (es : Events) (d : ℕ)
    → (abandon e l es).1.flag d
      ≡ (es.flag d || (if es.flag e then is_first d (view l es).queue else e == d))
unfolding abandon set_event
abandon-flag e l es d = elim (Bool-cases (es.flag e)) [
  | inl h ↦ rw h (release-flag l es d)
  | inr h ↦
      rw h
        (elim (Bool-cases (e == d)) [ inl q ↦ rw q (ground arith) | inr q ↦ rw q (ground arith) ])
]

acquire-result :
    (l : Lock) (es : Events) → (acquire l es).0 ≡ (if l.state then some es.made else none)
unfolding acquire
acquire-result l es = elim (Bool-cases l.state) [
  | inl h ↦ rw (h, acquire) refl
  | inr h ↦ rw (h, acquire) refl
]

queued_once :
    (n : ℕ) (ms : List (ℕ × Move)) (d : ℕ)
    → (run (start n) ms).events.flag d ≡ false
    → count d (run (start n) ms).lock.waiters ≤ 1
queued_once n ms d f =
    let v = run-IsSound (start n) ms (start-IsSound n) in omega (arith, v.balance d f, v.unique d)

-- In every state that the lock can reach, `acquire` takes the mutex, if it is free, or gives an event
-- and queues for it; `release` hands it to the first of those who wait, whose event alone is set,
-- and frees it if there is none; and a wait that is cancelled leaves the queue, or, where the mutex
-- was handed to it already, gives it back, so that the event of the first who waits is set.
pub lock_refines :
    (n : ℕ) (ms : List (ℕ × Move)) (e d : ℕ)
    → let s = run (start n) ms in
      let m = view s.lock s.events in
      (let (o, l, es) = acquire s.lock s.events in
        (o ≡ (if m.taken then some s.events.made else none))
        × (view l es ≡ take_or_queue s.events.made m))
      × (let (l, es) = release s.lock s.events in
          (view l es ≡ give_back m) × (es.flag d ≡ (s.events.flag d || is_first d m.queue)))
      × (let (l, es) = abandon e s.lock s.events in
          (view l es ≡ (if s.events.flag e then give_back m else withdraw e m))
          × (es.flag d
              ≡ (s.events.flag d || (if s.events.flag e then is_first d m.queue else e == d))))
lock_refines n ms e d =
    let s : System = run (start n) ms in
    let v = run-IsSound (start n) ms (start-IsSound n) in
    (
      (
        acquire-result s.lock s.events,
        acquire-view s.lock s.events (v.fresh s.events.made (omega arith)).0,
      ),
      (release-view s.lock s.events (queued_once n ms), release-flag s.lock s.events d),
      (abandon-view e s.lock s.events (queued_once n ms), abandon-flag e s.lock s.events d),
    )
