-- ===== src/Signals/Stealing.antt =====
-- A second receiver of a signal takes the signal from the first.
use tonio.Prelude.{
  ℕ, ◌+◌, ◌≤◌, ◌<◌, ◌≡◌, ◌≢◌, refl, ap, Option, none, some, List, [], ◌∷◌, arith, get_elem?, count,
  count-append, Bool-cases, inl, inr,
}
use tonio.Sync.Waiters.{new_event, set_event}
use tonio.Signals.Accounting.{count-drop_at}
use tonio.Signals.{
  Phase, awaiting, notified, leaving, gone, Coro, System, sig_add, sig_rem, register, rem_all, exit,
  deliver_from, handle_from, handles_at, clear_event, send, turn, turn_from, Move, enters, exits,
  delivers, turns, takes, step, run,
}

-- An event that was made and that no signal has.
record Dropped (e n : ℕ) (s : System) : Type 0 where
  old : e < s.events.made
  none_has : (g : ℕ) → s.handlers g ≢ some e
  noted : count e s.noted + count e s.handles ≤ n

register-Dropped :
    (e n r : ℕ) (sigs : List ℕ) (s : System) → Dropped e n s → Dropped e n (register r sigs s)
unfolding register sig_add new_event
register-Dropped e n r [] s v = v
register-Dropped e n r (sig ∷ sigs) s v = register-Dropped e n r sigs _ (record {
  old = omega (arith, v.old);
  none_has = λ g h. ground (arith, v.none_has g, v.old, h);
  noted = v.noted;
})

rem_all-Dropped :
    (e n : ℕ) (sigs : List ℕ) (s : System) → Dropped e n s → Dropped e n (rem_all sigs s)
unfolding rem_all sig_rem
rem_all-Dropped e n [] s v = v
rem_all-Dropped e n (sig ∷ sigs) s v =
    rem_all-Dropped e n sigs _
      (record { old = v.old; none_has = λ g h. ground (arith, v.none_has g, h); noted = v.noted })

deliver-Dropped :
    (e n : ℕ) (o : Option ℕ) (s : System)
    → o ≢ some e
    → Dropped e n s
    → Dropped e n (deliver_from o s)
unfolding deliver_from
deliver-Dropped e n none s h v = v
deliver-Dropped e n (some d) s h v =
    let ne : d ≢ e = λ q. h (ap some q) in
    record {
      old = v.old;
      none_has = v.none_has;
      noted = ground (arith, v.noted, ne, count-append e s.handles (d ∷ []));
    }

handle-Dropped :
    (e n : ℕ) (o : Option ℕ) (k : ℕ) (s : System)
    → get_elem? s.handles k ≡ o
    → Dropped e n s
    → Dropped e n (handle_from o k s)
unfolding handle_from set_event
handle-Dropped e n none k s at v = v
handle-Dropped e n (some d) k s at v = record {
  old = ground (arith, v.old);
  none_has = v.none_has;
  noted =
      ground (arith, v.noted, count-drop_at s.handles k d e at, count-append e s.noted (d ∷ []));
}

turn-Dropped :
    (e n : ℕ) (p : Phase) (c : Coro) (i : ℕ) (s : System)
    → Dropped e n s
    → Dropped e n (turn p c i s)
unfolding turn send clear_event
turn-Dropped e n awaiting c i s v = elim (Bool-cases (s.events.flag c.event)) [
  | inl h ↦ simp h (record { old = v.old; none_has = v.none_has; noted = v.noted })
  | inr h ↦ simp h v
]
turn-Dropped e n notified c i s v = record { old = v.old; none_has = v.none_has; noted = v.noted }
turn-Dropped e n leaving c i s v = record { old = v.old; none_has = v.none_has; noted = v.noted }
turn-Dropped e n gone c i s v = v

turn_from-Dropped :
    (e n : ℕ) (o : Option Coro) (i : ℕ) (s : System) → Dropped e n s → Dropped e n (turn_from o i s)
unfolding turn_from
turn_from-Dropped e n none i s v = v
turn_from-Dropped e n (some c) i s v = turn-Dropped e n c.phase c i s v

step-Dropped : (e n : ℕ) (s : System) (m : Move) → Dropped e n s → Dropped e n (step s m)
unfolding step exit
step-Dropped e n s (enters r sigs) v = register-Dropped e n r sigs s v
step-Dropped e n s (exits r sigs) v =
    let w = rem_all-Dropped e n sigs s v in
    record { old = w.old; none_has = w.none_has; noted = w.noted }
step-Dropped e n s (delivers sig) v = deliver-Dropped e n (s.handlers sig) s (v.none_has sig) v
step-Dropped e n s (handles_at k) v = handle-Dropped e n (get_elem? s.handles k) k s refl v
step-Dropped e n s (turns i) v = turn_from-Dropped e n (get_elem? s.coros i) i s v
step-Dropped e n s (takes r) v = record { old = v.old; none_has = v.none_has; noted = v.noted }

run-Dropped : (e n : ℕ) (s : System) (ms : List Move) → Dropped e n s → Dropped e n (run s ms)
unfolding run
run-Dropped e n s [] v = v
run-Dropped e n s (m ∷ ms) v = run-Dropped e n (step s m) ms (step-Dropped e n s m v)

-- A receiver has an event for a signal, which is that of no other signal. Once another receiver of the
-- signal is entered, this event is set at most for the signals that were read before and stand in the
-- queue of the runtime, whatever follows, and by none that is read later: also not when the other
-- receiver has been left.
pub second_receiver_steals :
    (s : System) (r sig e : ℕ) (ms : List Move)
    → s.handlers sig ≡ some e
    → e < s.events.made
    → ((g : ℕ) → s.handlers g ≡ some e → g ≡ sig)
    → count e (run (step s (enters r (sig ∷ []))) ms).noted ≤ count e s.noted + count e s.handles
unfolding step register sig_add new_event
second_receiver_steals s r sig e ms at old only =
    let t : System = register r (sig ∷ []) s in
    let w = run-Dropped e (count e s.noted + count e s.handles) t ms (record {
      old = omega (arith, old);
      none_has = λ g h. ground (arith, only g, old, h);
      noted = omega arith;
    }) in
    omega (arith, w.noted)
