-- ===== src/Runtime/Failing.antt =====
-- Runs that fail at the start.
use tonio.Prelude.{
  ℕ, ◌≡◌, refl, sym, ap, subst, ◌∙◌, true, false, Option, none, some, [], ◌∷◌, elem,
}
use tonio.Runtime.{
  Error, runtime_error, pair, Kernel, Process, translated, check_sig, catch_signal, add_checked,
  sig_add, ssock_start_from, ssock_start, ssock_stop_from, ssock_stop, and_then, add_all, reg_end,
  reg_handlers, sig_reg_from, sig_reg, dereg_from, sig_dereg, run_forever_pre, run_forever_post,
  run_body, run_forever,
}
use tonio.Runtime.Restoring.{
  Catchable, run_forever-parts, set_sig_wfd-lem, sig_dereg-lem, start-lem, defaults, opened,
}

module _ (k : Kernel) (main : k.main_thread ≡ true) where
  -- A second run of a runtime that runs raises RuntimeError, but only after it has closed the
  -- self-socket of the first, put its wake-up descriptor back and stopped it listening for signals.
  pub second_run :
      (p : Process) (w : ℕ) (outcome : Option Error)
      → p.ssock_w ≡ some w
      → p.sig_listening ≡ true
      → ((s : ℕ) → elem s p.sigset ≡ true → Catchable k s)
      → let q = run_forever k outcome p in
        (q.0 ≡ some runtime_error)
        × (q.1.ssock_w ≡ none)
        × (q.1.wakeup ≡ p.sig_wfd)
        × (q.1.sig_listening ≡ false)
  unfolding run_forever_pre run_forever_post run_body ssock_start ssock_start_from ssock_stop
      ssock_stop_from
  second_run p w outcome busy l h =
      let fin : Process → Option Error × Process = λ q. (none, record q { stopping = false }) in
      let dereg : Process = record p {
        sig_listening = false;
        wakeup = p.sig_wfd;
        handlers = defaults k main p.sigset p.handlers;
      } in
      let pre = ap (λ o. and_then (ssock_start_from k o p) (sig_reg k)) busy in
      let post =
        ap (λ t. and_then (and_then t ssock_stop) fin) (sig_dereg-lem k main p l h)
        ∙ ap (λ o. and_then (ssock_stop_from o dereg) fin) busy in
      subst
        (λ q.
          (q.0 ≡ some runtime_error)
          × (q.1.ssock_w ≡ none)
          × (q.1.wakeup ≡ p.sig_wfd)
          × (q.1.sig_listening ≡ false))
        (sym (run_forever-parts k outcome p _ _ pre post)) (refl, refl, refl, refl)

  sig_add_fails :
      (s : ℕ) (e : Error) (p : Process)
      → k.valid s ≡ true
      → k.signal s ≡ some e
      → sig_add k s p ≡ (some (translated k e), p)
  unfolding sig_add add_checked check_sig catch_signal
  sig_add_fails s e p v g = rw (main, v, g) refl

  -- If the only signal of a run cannot be handled, the run raises the error, but the wake-up descriptor
  -- stays that of the self-socket, which is gone.
  pub failed_run :
      (p : Process) (r w s : ℕ) (e : Error) (outcome : Option Error)
      → p.ssock_w ≡ none
      → p.sig_listening ≡ false
      → k.socketpair ≡ pair r w
      → k.setblocking ≡ none
      → k.valid s ≡ true
      → k.signal s ≡ some e
      → let q = run_forever k outcome (record p { sigset = s ∷ [] }) in
        (q.0 ≡ some (translated k e)) × (q.1.ssock_w ≡ none) × (q.1.wakeup ≡ some w)
  unfolding run_forever_pre run_forever_post run_body sig_reg sig_reg_from reg_handlers reg_end
      add_all sig_dereg dereg_from ssock_stop ssock_stop_from
  failed_run p r w s e outcome fresh l made set v g =
      let fin : Process → Option Error × Process = λ q. (none, record q { stopping = false }) in
      let one : Process = record p { sigset = s ∷ [] } in
      let left : Process = record p {
        sigset = s ∷ [];
        ssock_r = some r;
        ssock_w = some w;
        sig_wfd = p.wakeup;
        wakeup = some w;
      } in
      let pre =
        ap (λ t. and_then t (sig_reg k)) (start-lem k main one r w fresh made set)
        ∙ ap (reg_handlers k p.wakeup) (set_sig_wfd-lem k main (some w) (opened k main one r w))
        ∙ ap (λ t. let a = and_then t (add_all k []) in reg_end (s ∷ []) a.0 a.1)
            (sig_add_fails s e left v g) in
      let post = ap (λ b. and_then (and_then (dereg_from k b left) ssock_stop) fin) l in
      subst (λ q. (q.0 ≡ some (translated k e)) × (q.1.ssock_w ≡ none) × (q.1.wakeup ≡ some w))
        (sym (run_forever-parts k outcome one _ _ pre post)) (refl, refl, refl)
