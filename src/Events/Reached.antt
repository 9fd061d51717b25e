-- ===== src/Events/Reached.antt =====
-- What the wakers, timers and aborts of an event do to the suspensions that it has to reach.
use tonio.Prelude.{
  ℕ, ◌+◌, ◌≤◌, ◌<◌, ◌≡◌, refl, Bool, true, false, ◌||◌, Option, none, some, List, [], ◌∷◌, arith,
  one_if, count, count-append, elem,
}
use tonio.Events.{
  Suspension, resume_from, error_from, suspend_from, System, strike, wake, error, hold, wake_all,
  hold_all,
}

-- A suspension of one event, which has no sentinel, is in the hands of the scheduler once it is consumed,
-- and otherwise among the watchers `ws`.
pub record Reached (ws : List ℕ) (s : System) : Type 0 where
  pub fresh : (i : ℕ) → s.made ≤ i → count i s.handles ≡ 0
  pub known : (i : ℕ) → elem i ws ≡ true → i < s.made
  pub once :
      (i : ℕ)
      → (s.suspensions i).sentinel ≡ none
      → count i s.handles ≡ one_if (s.suspensions i).consumed
  pub reach :
      (i : ℕ)
      → i < s.made
      → (s.suspensions i).sentinel ≡ none
      → (elem i ws || (s.suspensions i).consumed) ≡ true

-- What a resumption, a throw and a hold may do to a suspension.
record Fits (r : Bool × Suspension) (p : Suspension) : Type 0 where
  plain : r.1.sentinel ≡ none → p.sentinel ≡ none
  told : p.sentinel ≡ none → one_if r.0 + one_if p.consumed ≡ one_if r.1.consumed

resume-Fits : (o : Option ℕ) (p : Suspension) → p.sentinel ≡ o → Fits (resume_from o p) p
unfolding resume_from
resume-Fits none p h = record { plain = λ e. h; told = λ e. ground arith }
resume-Fits (some n) p h = record { plain = λ e. absurd (cc e); told = λ e. absurd (cc (e, h)) }

error-Fits : (o : Option ℕ) (p : Suspension) → p.sentinel ≡ o → Fits (error_from o p) p
unfolding error_from
error-Fits none p h = record { plain = λ e. h; told = λ e. ground arith }
error-Fits (some n) p h = record { plain = λ e. absurd (cc e); told = λ e. absurd (cc (e, h)) }

suspend-Fits : (o : Option ℕ) (p : Suspension) → p.sentinel ≡ o → Fits (false, suspend_from o p) p
unfolding suspend_from
suspend-Fits none p h = record { plain = λ e. e; told = λ e. omega arith }
suspend-Fits (some n) p h = record { plain = λ e. absurd (cc e); told = λ e. absurd (cc (e, h)) }

strike-Reached :
    (w : ℕ) (ws : List ℕ) (r : Bool × Suspension) (s : System)
    → w < s.made
    → Fits r (s.suspensions w)
    → Reached ws s
    → Reached ws (strike w r s)
unfolding strike
strike-Reached w ws (hit, q) s lt f v = record {
  fresh = λ i h. ground (arith, v.fresh i h, count-append i s.handles (w ∷ []));
  known = v.known;
  once = λ i e.
      ground (arith, f.plain, f.told, v.once i, v.once w, e, count-append i s.handles (w ∷ []));
  reach = λ i l e. ground (arith, f.plain, f.told, v.reach i l, v.reach w lt, e);
}

pub wake-Reached :
    (w : ℕ) (ws : List ℕ) (s : System) → w < s.made → Reached ws s → Reached ws (wake w s)
unfolding wake
wake-Reached w ws s lt v =
    let p = s.suspensions w in strike-Reached w ws _ s lt (resume-Fits p.sentinel p refl) v

pub error-Reached :
    (w : ℕ) (ws : List ℕ) (s : System) → w < s.made → Reached ws s → Reached ws (error w s)
unfolding error
error-Reached w ws s lt v =
    let p = s.suspensions w in strike-Reached w ws _ s lt (error-Fits p.sentinel p refl) v

hold-Reached :
    (w : ℕ) (ws : List ℕ) (s : System) → w < s.made → Reached ws s → Reached ws (hold w s)
unfolding hold
hold-Reached w ws s lt v =
    let p = s.suspensions w in strike-Reached w ws _ s lt (suspend-Fits p.sentinel p refl) v

resumed :
    (o : Option ℕ) (p : Suspension)
    → (resume_from o p).1.sentinel ≡ none
    → p.sentinel ≡ o
    → (resume_from o p).1.consumed ≡ true
unfolding resume_from
resumed none p h e = refl
resumed (some n) p h e = absurd (cc h)

-- The first watcher has been woken.
pub woken-Reached : (w : ℕ) (ws : List ℕ) (s : System) → Reached (w ∷ ws) s → Reached ws (wake w s)
unfolding wake strike
woken-Reached w ws s v =
    let p = s.suspensions w in
    let u = wake-Reached w (w ∷ ws) s (v.known w (ground arith)) v in
    record {
      fresh = u.fresh;
      known = λ i h. v.known i (ground (arith, h));
      once = u.once;
      reach = λ i l e. ground (arith, u.reach i l e, resumed p.sentinel p, e);
    }

pub wake_all-Reached : (ws : List ℕ) (s : System) → Reached ws s → Reached [] (wake_all ws s)
unfolding wake_all
wake_all-Reached [] s v = v
wake_all-Reached (w ∷ ws) s v = wake_all-Reached ws (wake w s) (woken-Reached w ws s v)

pub hold_all-Reached :
    (ks ws : List ℕ) (s : System)
    → ((i : ℕ) → elem i ks ≡ true → i < s.made)
    → Reached ws s
    → Reached ws (hold_all ks s)
unfolding hold_all hold strike
hold_all-Reached [] ws s h v = v
hold_all-Reached (k ∷ ks) ws s h v =
    hold_all-Reached ks ws (hold k s) (λ i e. h i (ground (arith, e)))
      (hold-Reached k ws s (h k (ground arith)) v)
