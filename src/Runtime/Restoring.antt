-- ===== src/Runtime/Restoring.antt =====
-- What a run leaves behind: the wake-up descriptor, the handlers and the self-socket.
use tonio.Prelude.{
  ℕ, ◌≡◌, refl, sym, ap, subst, ◌∙◌, true, false, Option, none, some, List, [], ◌∷◌, arith, update,
  elem, ◌==◌, Bool-cases, inl, inr, if◌then◌else◌,
}
use tonio.Runtime.{
  Error, pair, Kernel, Handler, noop, Process, check_sig, handle, catch_signal, add_checked,
  sig_add, default_handler, sig_rem, set_sig_wfd, start_pair, ssock_start_from, ssock_start,
  ssock_stop_from, ssock_stop, add_all, reg_end, reg_handlers, sig_reg_from, sig_reg, rem_all,
  dereg_from, sig_dereg, and_then, run_forever_pre, run_forever_post, finally, run_body,
  run_forever,
}

-- A signal that can be handled.
abbrev pub Catchable : Kernel → ℕ → Type 0
Catchable k sig = (k.valid sig ≡ true) × (k.signal sig ≡ none) × (k.siginterrupt sig ≡ none)

-- What is left when a run of a process ends: the result is that of `_run`.
abbrev pub Restored : Kernel → Process → Option Error → Option Error × Process → Type 0
Restored k p outcome q =
    (q.0 ≡ outcome)
    × (q.1.wakeup ≡ p.wakeup)
    × ((s : ℕ) → q.1.handlers s ≡ (if elem s p.sigset then default_handler k s else p.handlers s))
    × (q.1.ssock_w ≡ none)
    × (q.1.sig_listening ≡ false)
    × (q.1.stopping ≡ false)

-- A run by its three parts.
pub run_forever-parts :
    (k : Kernel) (outcome : Option Error) (p : Process) (x y : Option Error × Process)
    → run_forever_pre k p ≡ x
    → run_forever_post k (run_body outcome x).1 ≡ y
    → run_forever k outcome p ≡ finally (run_body outcome x).0 y
unfolding run_forever
run_forever-parts k outcome p x y a b =
    ap (λ t. finally (run_body outcome t).0 (run_forever_post k (run_body outcome t).1)) a
    ∙ ap (finally (run_body outcome x).0) b

module _ (k : Kernel) (main : k.main_thread ≡ true) where
  abbrev noops : List ℕ → (ℕ → Handler) → ℕ → Handler
  noops [] h = h
  noops (s ∷ ss) h = noops ss (update h s noop)

  pub defaults : List ℕ → (ℕ → Handler) → ℕ → Handler
  defaults [] h = h
  defaults (s ∷ ss) h = defaults ss (update h s (default_handler k s))

  pub sig_add-lem :
      (s : ℕ) (p : Process)
      → Catchable k s
      → sig_add k s p ≡ (none, record p { handlers = update p.handlers s noop })
  unfolding sig_add add_checked check_sig catch_signal handle
  sig_add-lem s p (v, g, i) = rw (main, v, g, i) refl

  sig_rem-lem :
      (s : ℕ) (p : Process)
      → k.signal s ≡ none
      → (sig_rem k s p).1 ≡ record p { handlers = update p.handlers s (default_handler k s) }
  unfolding sig_rem handle
  sig_rem-lem s p g = rw (main, g) refl

  add_all-lem :
      (ss : List ℕ) (p : Process)
      → ((s : ℕ) → elem s ss ≡ true → Catchable k s)
      → add_all k ss p ≡ (none, record p { handlers = noops ss p.handlers })
  unfolding add_all
  add_all-lem [] p h = refl
  add_all-lem (s ∷ ss) p h =
      ap (λ t. and_then t (add_all k ss)) (sig_add-lem s p (h s (ground arith)))
      ∙ add_all-lem ss (record p { handlers = update p.handlers s noop })
          (λ t q. h t (ground arith))

  rem_all-lem :
      (ss : List ℕ) (p : Process)
      → ((s : ℕ) → elem s ss ≡ true → Catchable k s)
      → rem_all k ss p ≡ record p { handlers = defaults ss p.handlers }
  unfolding rem_all defaults
  rem_all-lem [] p h = refl
  rem_all-lem (s ∷ ss) p h = rw (sig_rem-lem s p (h s (ground arith)).1) (
      rem_all-lem ss (record p { handlers = update p.handlers s (default_handler k s) })
        (λ t q. h t (ground arith)))

  defaults-lem :
      (ss : List ℕ) (h : ℕ → Handler) (s : ℕ)
      → defaults ss h s ≡ (if elem s ss then default_handler k s else h s)
  unfolding defaults
  defaults-lem [] h s = refl
  defaults-lem (t ∷ ss) h s =
      let rest = defaults-lem ss (update h t (default_handler k t)) s in
      elim (Bool-cases (t == s)) [
        | inl q ↦
            let same : default_handler k t ≡ default_handler k s =
              ap (default_handler k) (ground (arith, q)) in
            ground (arith, rest, q, same)
        | inr q ↦ ground (arith, rest, q)
      ]

  noops-lem : (ss : List ℕ) (h : ℕ → Handler) (s : ℕ) → elem s ss ≡ false → noops ss h s ≡ h s
  noops-lem [] h s q = refl
  noops-lem (t ∷ ss) h s q =
      noops-lem ss (update h t noop) s (ground (arith, q)) ∙ ground (arith, q)

  both-lem :
      (ss : List ℕ) (h : ℕ → Handler) (s : ℕ)
      → defaults ss (noops ss h) s ≡ (if elem s ss then default_handler k s else h s)
  both-lem ss h s = elim (Bool-cases (elem s ss)) [
    | inl q ↦ defaults-lem ss (noops ss h) s ∙ ground (arith, q)
    | inr q ↦ defaults-lem ss (noops ss h) s ∙ ground (arith, q, noops-lem ss h s q)
  ]

  pub set_sig_wfd-lem :
      (fd : Option ℕ) (p : Process) → set_sig_wfd k fd p ≡ (none, record p { wakeup = fd })
  unfolding set_sig_wfd
  set_sig_wfd-lem fd p = rw main refl

  -- `_sig_reg` and `_sig_dereg` where all signals can be handled.
  sig_reg-lem :
      (p : Process) (w : ℕ)
      → p.ssock_w ≡ some w
      → ((s : ℕ) → elem s p.sigset ≡ true → Catchable k s)
      → sig_reg k p ≡ (
        none,
        record p {
          sig_wfd = p.wakeup;
          wakeup = some w;
          handlers = noops p.sigset p.handlers;
          sig_listening = true;
        },
      )
  unfolding sig_reg sig_reg_from reg_handlers reg_end
  sig_reg-lem p w q h =
      ap (λ o. sig_reg_from k o p) q
      ∙ ap (reg_handlers k p.wakeup) (set_sig_wfd-lem (some w) p)
      ∙ ap (λ r. reg_end p.sigset r.0 r.1)
          (add_all-lem p.sigset (record p { sig_wfd = p.wakeup; wakeup = some w }) h)

  pub sig_dereg-lem :
      (p : Process)
      → p.sig_listening ≡ true
      → ((s : ℕ) → elem s p.sigset ≡ true → Catchable k s)
      → sig_dereg k p ≡ (
        none,
        record p {
          sig_listening = false;
          wakeup = p.sig_wfd;
          handlers = defaults p.sigset p.handlers;
        },
      )
  unfolding sig_dereg dereg_from
  sig_dereg-lem p q h =
      ap (λ b. dereg_from k b p) q
      ∙ ap (set_sig_wfd k p.sig_wfd) (rem_all-lem p.sigset (record p { sig_listening = false }) h)
      ∙ set_sig_wfd-lem p.sig_wfd _

  -- The self-socket that a run makes, and the process while it runs.
  module _ (p : Process) (r w : ℕ) where
    abbrev pub opened : Process
    opened = record p { ssock_r = some r; ssock_w = some w }

    listening : Process
    listening = record p {
      ssock_r = some r;
      ssock_w = some w;
      sig_wfd = p.wakeup;
      wakeup = some w;
      handlers = noops p.sigset p.handlers;
      sig_listening = true;
    }

    closed : Process
    unfolding listening
    closed = record p {
      ssock_r = none;
      ssock_w = none;
      sig_wfd = p.wakeup;
      handlers = defaults p.sigset (noops p.sigset p.handlers);
      sig_listening = false;
      stopping = false;
    }

    pub start-lem :
        p.ssock_w ≡ none
        → k.socketpair ≡ pair r w
        → k.setblocking ≡ none
        → ssock_start k p ≡ (none, opened)
    unfolding ssock_start ssock_start_from start_pair
    start-lem fresh made set =
        ap (λ o. ssock_start_from k o p) fresh
        ∙ ap (λ o. start_pair k o p) made
        ∙ rw (set, start_pair) refl

    pre-lem :
        p.ssock_w ≡ none
        → k.socketpair ≡ pair r w
        → k.setblocking ≡ none
        → ((s : ℕ) → elem s p.sigset ≡ true → Catchable k s)
        → run_forever_pre k p ≡ (none, listening)
    unfolding run_forever_pre listening
    pre-lem fresh made set h =
        ap (λ t. and_then t (sig_reg k)) (start-lem fresh made set) ∙ sig_reg-lem opened w refl h

    post-lem :
        ((s : ℕ) → elem s p.sigset ≡ true → Catchable k s)
        → run_forever_post k listening ≡ (none, closed)
    unfolding run_forever_post listening closed ssock_stop ssock_stop_from
    post-lem h =
        ap (λ t. and_then (and_then t ssock_stop) (λ q. (none, record q { stopping = false })))
          (sig_dereg-lem listening refl h)

    -- A run with signals that can be handled gives what `_run` gives, and leaves the wake-up descriptor
    -- as it was; the handlers of its signals are the default ones, and the others as they were; there is
    -- no self-socket, and the runtime neither listens for signals nor is it stopping.
    pub run_restores :
        (outcome : Option Error)
        → p.ssock_w ≡ none
        → k.socketpair ≡ pair r w
        → k.setblocking ≡ none
        → ((s : ℕ) → elem s p.sigset ≡ true → Catchable k s)
        → Restored k p outcome (run_forever k outcome p)
    unfolding run_body closed
    run_restores outcome fresh made set h =
        subst (Restored k p outcome)
          (sym (run_forever-parts k outcome p _ _ (pre-lem fresh made set h) (post-lem h)))
          (refl, refl, λ s. both-lem p.sigset p.handlers s, refl, refl, refl)
