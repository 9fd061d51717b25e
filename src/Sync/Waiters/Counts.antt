-- ===== src/Sync/Waiters/Counts.antt =====
-- The invariant of permits, queue and tasks, and how each step of a task keeps it.
use tonio.Prelude.{
  replicate, total-replicate, total-get_elem?, ℕ, suc, ◌+◌, ◌≤◌, ◌<◌, ◌≡◌, refl, subst, Bool, true,
  false, List, [], ◌∷◌, some, arith, update, get_elem?, total, total-add, count, Bool-cases, inl,
  inr, if◌then◌else◌,
}
use native.Mathlib.Decide.{dec_lt}
use tonio.Sync.Waiters.{no_events, holds, Events, drain, Phase, idle, holding, waiting, owns, waits}

-- `permits` are free, `n` are free or owned.
pub record Inv (permits : ℕ) (queue : List ℕ) (es : Events) (ts : List Phase) (n : ℕ) : Type 0 where
  pub tokens : permits + total (owns es.flag) ts ≡ n
  -- an event that is not set stands in the queue as often as a task waits on it
  pub balance : (e : ℕ) → es.flag e ≡ false → total (waits e) ts ≡ count e queue
  pub unique : (e : ℕ) → total (waits e) ts ≤ 1
  pub fresh :
      (e : ℕ) → es.made ≤ e → (es.flag e ≡ false) × (total (waits e) ts ≡ 0) × (count e queue ≡ 0)
  -- nobody queues while a permit is free
  pub no_queue : 0 < permits → queue ≡ []

pub Inv-permits :
    {p p' : ℕ} {q : List ℕ} {es : Events} {ts : List Phase} {n : ℕ}
    → p ≡ p'
    → Inv p q es ts n
    → Inv p' q es ts n
Inv-permits {q = q} {es = es} {ts = ts} {n = n} e v = subst (λ k. Inv k q es ts n) e v

pub Inv-total :
    {p n n' : ℕ} {q : List ℕ} {es : Events} {ts : List Phase}
    → n ≡ n'
    → Inv p q es ts n
    → Inv p q es ts n'
Inv-total {p = p} {q = q} {es = es} {ts = ts} e v = subst (λ k. Inv p q es ts k) e v

owns-update :
    (f : ℕ → Bool) (e : ℕ)
    → f e ≡ false
    → (p : Phase) → owns (update f e true) p ≡ owns f p + waits e p
unfolding owns waits
owns-update f e h idle = omega arith
owns-update f e h holding = omega arith
owns-update f e h (waiting d) = ground arith

-- Setting an event makes owners of those who wait on it.
pub total-update :
    (f : ℕ → Bool) (e : ℕ) (ts : List Phase)
    → f e ≡ false
    → total (owns (update f e true)) ts ≡ total (owns f) ts + total (waits e) ts
total-update f e ts h = total-add (owns f) (waits e) (owns (update f e true)) (owns-update f e h) ts

-- Dropping the head of the queue: a set event, or one that is set now.
pop-set :
    (permits e : ℕ) (q : List ℕ) (es : Events) (ts : List Phase) (n : ℕ)
    → es.flag e ≡ true
    → Inv permits (e ∷ q) es ts n
    → Inv permits q es ts n
pop-set permits e q es ts n h v = record {
  tokens = v.tokens;
  balance = λ d hd. ground (arith, v.balance d hd);
  unique = v.unique;
  fresh = λ d hd. ground (arith, v.fresh d hd);
  no_queue = λ hp. ground (arith, v.no_queue hp);
}

pop-unset :
    (permits e : ℕ) (q : List ℕ) (es : Events) (ts : List Phase) (n : ℕ)
    → es.flag e ≡ false
    → Inv permits (e ∷ q) es ts n
    → Inv permits q (record es { flag = update es.flag e true }) ts (suc n)
pop-unset permits e q es ts n h v = record {
  tokens = ground (arith, v.tokens, v.balance e h, v.unique e, total-update es.flag e ts h);
  balance = λ d hd. ground (arith, v.balance d);
  unique = v.unique;
  fresh = λ d hd. ground (arith, v.fresh d, v.fresh e, v.balance e h);
  no_queue = λ hp. ground (arith, v.no_queue hp);
}

-- `release`: the permit in hand goes to the oldest event that is not set yet, or becomes free.
pub drain-Inv :
    (permits : ℕ) (q : List ℕ) (es : Events) (ts : List Phase) (n : ℕ)
    → Inv permits q es ts n
    → Inv
        (if (drain q es).handed then permits else suc permits)
        (drain q es).queue
        (drain q es).events
        ts
        (suc n)
unfolding drain
drain-Inv permits [] es ts n v = record {
  tokens = omega (arith, v.tokens);
  balance = v.balance;
  unique = v.unique;
  fresh = v.fresh;
  no_queue = λ hp. refl;
}
drain-Inv permits (e ∷ q) es ts n v = elim (Bool-cases (es.flag e)) [
  | inl h ↦ rw (h, drain) (drain-Inv permits q es ts n (pop-set permits e q es ts n h v))
  | inr h ↦ rw (h, drain) (pop-unset permits e q es ts n h v)
]

-- The tasks inside the block are among the owners.
pub holds-le-owns : (f : ℕ → Bool) (ts : List Phase) → total holds ts ≤ total (owns f) ts
unfolding holds owns
holds-le-owns f [] = omega arith
holds-le-owns f (idle ∷ ts) = omega (arith, holds-le-owns f ts)
holds-le-owns f (holding ∷ ts) = omega (arith, holds-le-owns f ts)
holds-le-owns f (waiting e ∷ ts) = omega (arith, holds-le-owns f ts)

-- Tasks that start idle, over `n` free permits.
pub start-Inv : (n k : ℕ) → Inv n [] no_events (replicate k idle) n
unfolding owns waits
start-Inv n k = record {
  tokens = omega (arith, total-replicate (owns (λ _. false)) idle k refl);
  balance = λ e h. total-replicate (waits e) idle k refl;
  unique = λ e. omega (arith, total-replicate (waits e) idle k refl);
  fresh = λ e h. (refl, total-replicate (waits e) idle k refl, refl);
  no_queue = λ h. refl;
}

-- A task that waits on an event not yet set is queued once, and no permit is free.
pub waiting-queued :
    (permits : ℕ) (q : List ℕ) (es : Events) (ts : List Phase) (n i e : ℕ)
    → get_elem? ts i ≡ some (waiting e)
    → es.flag e ≡ false
    → Inv permits q es ts n
    → (count e q ≡ 1) × (permits ≡ 0)
unfolding waits
waiting-queued permits q es ts n i e at h v = (
  ground (arith, v.balance e h, v.unique e, total-get_elem? (waits e) ts i (waiting e) at),
  elim (dec_lt 0 permits) [
    | yes free ↦ absurd (
        ground
          (arith, v.no_queue free, v.balance e h, total-get_elem? (waits e) ts i (waiting e) at))
    | no taken ↦ omega arith
  ],
)
