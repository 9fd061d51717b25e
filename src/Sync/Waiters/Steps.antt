-- ===== src/Sync/Waiters/Steps.antt =====
-- How each step of a task keeps the invariant of permits, queue and tasks.
use tonio.Prelude.{
  ℕ, suc, ◌≡◌, ap, fun_ext, Bool, true, false, List, [], ◌∷◌, ◌++◌, some, arith, update, get_elem?,
  set, total, total-set, count-append,
}
use tonio.Sync.Waiters.{Events, new_event, Phase, idle, holding, waiting, owns, waits}
use tonio.Sync.Waiters.Counts.{Inv, total-update}

-- A new event's flag is clear, as that of every event not yet made.
total-new :
    (f : ℕ → Bool) (e : ℕ) (ts : List Phase)
    → f e ≡ false
    → total (owns (update f e false)) ts ≡ total (owns f) ts
total-new f e ts h = ap (λ g. total (owns g) ts) (fun_ext λ j. ground arith)

-- A task that moves from one phase to another, the rest unchanged.
module _ (permits : ℕ) (q : List ℕ) (es : Events) (ts : List Phase) (n i : ℕ) where
  -- A free permit is taken by an idle task.
  pub take-Inv :
      get_elem? ts i ≡ some idle
      → Inv (suc permits) q es ts n
      → Inv permits q es (set ts i holding) n
  unfolding owns waits
  take-Inv at v = record {
    tokens = omega (arith, v.tokens, total-set (owns es.flag) ts i idle holding at);
    balance = λ e h. omega (arith, v.balance e h, total-set (waits e) ts i idle holding at);
    unique = λ e. omega (arith, v.unique e, total-set (waits e) ts i idle holding at);
    fresh = λ e h.
        let (f, w, c) = v.fresh e h in
        (f, omega (arith, w, total-set (waits e) ts i idle holding at), c);
    no_queue = λ h. v.no_queue (omega arith);
  }

  -- An idle task queues behind a new event.
  pub enqueue-Inv :
      get_elem? ts i ≡ some idle
      → permits ≡ 0
      → Inv permits q es ts n
      → Inv permits (q ++ es.made ∷ []) (new_event es) (set ts i (waiting es.made)) n
  unfolding owns waits new_event
  enqueue-Inv at none_free v = record {
    tokens = ground (
      arith,
      v.tokens,
      v.fresh es.made,
      total-set (owns (update es.flag es.made false)) ts i idle (waiting es.made) at,
      total-new es.flag es.made ts,
    );
    balance = λ d hd. ground (
      arith,
      v.balance d,
      v.fresh d,
      count-append d q (es.made ∷ []),
      total-set (waits d) ts i idle (waiting es.made) at,
    );
    unique = λ d.
        ground (arith, v.unique d, v.fresh d, total-set (waits d) ts i idle (waiting es.made) at);
    fresh = λ d hd. ground (
      arith,
      v.fresh d,
      count-append d q (es.made ∷ []),
      total-set (waits d) ts i idle (waiting es.made) at,
    );
    no_queue = λ h. absurd (omega arith);
  }

  -- A task whose event is set goes on as an owner.
  pub wake-Inv :
      (e : ℕ)
      → get_elem? ts i ≡ some (waiting e)
      → es.flag e ≡ true
      → Inv permits q es ts n
      → Inv permits q es (set ts i holding) n
  unfolding owns waits
  wake-Inv e at h v = record {
    tokens = ground (arith, v.tokens, total-set (owns es.flag) ts i (waiting e) holding at);
    balance =
        λ d hd. ground (arith, v.balance d hd, total-set (waits d) ts i (waiting e) holding at);
    unique = λ d. ground (arith, v.unique d, total-set (waits d) ts i (waiting e) holding at);
    fresh = λ d hd. ground (arith, v.fresh d hd, total-set (waits d) ts i (waiting e) holding at);
    no_queue = v.no_queue;
  }

  -- An owner leaves, with its permit in hand.
  pub leave-Inv :
      get_elem? ts i ≡ some holding
      → Inv permits q es ts (suc n)
      → Inv permits q es (set ts i idle) n
  unfolding owns waits
  leave-Inv at v = record {
    tokens = omega (arith, v.tokens, total-set (owns es.flag) ts i holding idle at);
    balance = λ e h. omega (arith, v.balance e h, total-set (waits e) ts i holding idle at);
    unique = λ e. omega (arith, v.unique e, total-set (waits e) ts i holding idle at);
    fresh = λ e h.
        let (f, w, c) = v.fresh e h in
        (f, omega (arith, w, total-set (waits e) ts i holding idle at), c);
    no_queue = v.no_queue;
  }

  -- A task is cancelled after its event was set: it owned a permit.
  pub refuse-Inv :
      (e : ℕ)
      → get_elem? ts i ≡ some (waiting e)
      → es.flag e ≡ true
      → Inv permits q es ts (suc n)
      → Inv permits q es (set ts i idle) n
  unfolding owns waits
  refuse-Inv e at h v = record {
    tokens = ground (arith, v.tokens, total-set (owns es.flag) ts i (waiting e) idle at);
    balance = λ d hd. ground (arith, v.balance d hd, total-set (waits d) ts i (waiting e) idle at);
    unique = λ d. ground (arith, v.unique d, total-set (waits d) ts i (waiting e) idle at);
    fresh = λ d hd. ground (arith, v.fresh d hd, total-set (waits d) ts i (waiting e) idle at);
    no_queue = v.no_queue;
  }

  -- A task is cancelled before: it sets its event itself and leaves it in the queue.
  pub give_up-Inv :
      (e : ℕ)
      → get_elem? ts i ≡ some (waiting e)
      → es.flag e ≡ false
      → Inv permits q es ts n
      → Inv permits q (record es { flag = update es.flag e true }) (set ts i idle) n
  unfolding owns waits
  give_up-Inv e at h v = record {
    tokens = ground (
      arith,
      v.tokens,
      v.unique e,
      total-set (owns es.flag) ts i (waiting e) idle at,
      total-set (waits e) ts i (waiting e) idle at,
      total-update es.flag e (set ts i idle) h,
    );
    balance = λ d hd. ground (arith, v.balance d, total-set (waits d) ts i (waiting e) idle at);
    unique = λ d. ground (arith, v.unique d, total-set (waits d) ts i (waiting e) idle at);
    fresh = λ d hd. ground (
      arith,
      v.fresh d,
      v.fresh e,
      v.balance e h,
      total-set (waits d) ts i (waiting e) idle at,
      total-set (waits e) ts i (waiting e) idle at,
    );
    no_queue = v.no_queue;
  }
