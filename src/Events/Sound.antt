-- ===== src/Events/Sound.antt =====
-- The invariant of an event and its waiters, kept by each operation.
use tonio.Prelude.{
  ℕ, zero, suc, ◌≡◌, refl, sym, subst, true, false, ◌||◌, List, [], ◌∷◌, ◌++◌, arith, update, ◌==◌,
  if◌then◌else◌, elem, ltb, ltb→lt,
}
use tonio.Events.{
  Suspension, build_sentinel, System, strike, wake, error, hold, wake_all, hold_all, notify_from,
  unnotify_from, add_waker, register, live, rem_stale_wakers,
}
use tonio.Events.Reached.{
  Reached, wake-Reached, woken-Reached, error-Reached, wake_all-Reached, hold_all-Reached,
}

pub record IsSound (s : System) : Type 0 where
  pub reached : Reached s.watchers s
  pub quiet : s.flag ≡ true → s.notifying ≡ 0 → s.watchers ≡ []

wake_all-watchers : (ws : List ℕ) (s : System) → (wake_all ws s).watchers ≡ s.watchers
unfolding wake_all wake strike
wake_all-watchers [] s = refl
wake_all-watchers (w ∷ ws) s = wake_all-watchers ws (wake w s)

hold_all-keeps :
    (ws : List ℕ) (s : System)
    → ((hold_all ws s).watchers ≡ s.watchers)
      × ((hold_all ws s).flag ≡ s.flag)
      × ((hold_all ws s).notifying ≡ s.notifying)
unfolding hold_all hold strike
hold_all-keeps [] s = (refl, refl, refl)
hold_all-keeps (w ∷ ws) s = hold_all-keeps ws (hold w s)

pub notify-IsSound : (n : ℕ) (s : System) → IsSound s → IsSound (notify_from n s)
unfolding notify_from
notify-IsSound zero s v = v
notify-IsSound (suc n) s v =
    let t = record s { watchers = []; dirty = false; notifying = n } in
    let r : Reached s.watchers t = record {
      fresh = v.reached.fresh;
      known = v.reached.known;
      once = v.reached.once;
      reach = v.reached.reach;
    } in
    let e = wake_all-watchers s.watchers t in
    record {
      reached =
          subst (λ ws. Reached ws (wake_all s.watchers t)) (sym e)
            (wake_all-Reached s.watchers t r);
      quiet = λ f q. e;
    }

pub unnotify-IsSound : (n : ℕ) (s : System) → IsSound s → IsSound (unnotify_from n s)
unfolding unnotify_from
unnotify-IsSound zero s v = v
unnotify-IsSound (suc n) s v =
    let t = record s { holding = n } in
    let r : Reached s.watchers t = record {
      fresh = v.reached.fresh;
      known = v.reached.known;
      once = v.reached.once;
      reach = v.reached.reach;
    } in
    let k = hold_all-keeps s.watchers t in
    record {
      reached =
          subst (λ ws. Reached ws (hold_all s.watchers t)) (sym k.0)
            (hold_all-Reached s.watchers s.watchers t v.reached.known r);
      quiet = λ f q. cc (k.0, v.quiet (cc (k.1, f)) (cc (k.2, q)));
    }

live-elem :
    (f : ℕ → Suspension) (i : ℕ) (ws : List ℕ) → elem i (live f ws) ≡ true → elem i ws ≡ true
unfolding live
live-elem f i [] h = h
live-elem f i (w ∷ ws) h = ground (arith, h, live-elem f i ws)

live-keeps :
    (f : ℕ → Suspension) (i : ℕ) (ws : List ℕ)
    → elem i ws ≡ true
    → (elem i (live f ws) || (f i).consumed) ≡ true
unfolding live
live-keeps f i [] h = absurd (cc h)
live-keeps f i (w ∷ ws) h = ground (arith, h, live-keeps f i ws)

pub stale-IsSound : (s : System) → IsSound s → IsSound (rem_stale_wakers s)
unfolding rem_stale_wakers
stale-IsSound s v = record {
  reached = record {
    fresh = v.reached.fresh;
    known = λ i h. v.reached.known i (live-elem s.suspensions i s.watchers h);
    once = v.reached.once;
    reach = λ i l e. ground (arith, v.reached.reach i l e, live-keeps s.suspensions i s.watchers);
  };
  quiet = λ f q. rw (v.quiet f q, live) refl;
}

pub struck : (i : ℕ) (s : System) → IsSound s → ltb i s.made ≡ true → IsSound (wake i s)
unfolding wake strike
struck i s v h = record {
  reached = wake-Reached i s.watchers s (ltb→lt i s.made h) v.reached;
  quiet = v.quiet;
}

pub thrown : (i : ℕ) (s : System) → IsSound s → ltb i s.made ≡ true → IsSound (error i s)
unfolding error strike
thrown i s v h = record {
  reached = error-Reached i s.watchers s (ltb→lt i s.made h) v.reached;
  quiet = v.quiet;
}

elem-push : (i m : ℕ) (ws : List ℕ) → elem i (ws ++ m ∷ []) ≡ (elem i ws || i == m)
elem-push i m [] = ground arith
elem-push i m (w ∷ ws) = ground (arith, elem-push i m ws)

-- A suspension is made, and stands in the list.
made-Reached :
    (k : ℕ) (ws : List ℕ) (s : System)
    → ((i : ℕ) → elem i ws ≡ (elem i s.watchers || i == s.made))
    → Reached s.watchers s
    → Reached ws (record s {
      suspensions =
          update s.suspensions s.made (record { sentinel = build_sentinel k; consumed = false });
      made = suc s.made;
    })
made-Reached k ws s h v = record {
  fresh = λ i l. v.fresh i (omega (arith, l));
  known = λ i e. ground (arith, h i, e, v.known i);
  once = λ i e. ground (arith, e, v.once i, v.fresh i);
  reach = λ i l e. ground (arith, e, l, h i, v.reach i);
}

pub register-IsSound : (k : ℕ) (s : System) → IsSound s → IsSound (register k s)
unfolding register add_waker wake strike
register-IsSound k s v =
    let p : Suspension = record { sentinel = build_sentinel k; consumed = false } in
    let t = record s { suspensions = update s.suspensions s.made p; made = suc s.made } in
    elim s.flag
        as (λ b.
          (s.flag ≡ b)
          → IsSound (
              if b
              then wake s.made t
              else record t { watchers = s.watchers ++ s.made ∷ []; dirty = true })) [
                | true ↦ λ f. record {
                  reached =
                      woken-Reached s.made s.watchers t
                        (made-Reached k (s.made ∷ s.watchers) s (λ i. ground arith) v.reached);
                  quiet = v.quiet;
                }
                | false ↦ λ f.
                    let r =
                      made-Reached k (s.watchers ++ s.made ∷ []) s
                        (λ i. elem-push i s.made s.watchers) v.reached in
                    record {
                      reached = record {
                        fresh = r.fresh;
                        known = r.known;
                        once = r.once;
                        reach = r.reach;
                      };
                      quiet = λ g q. absurd (cc (f, g));
                    }
              ]
      refl
