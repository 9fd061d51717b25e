-- ===== src/Signals/Accounting.antt =====
-- Every signal that set an event is sent once, or on its way.
use tonio.Prelude.{
  ℕ, zero, suc, ◌+◌, ◌≤◌, ◌<◌, ◌≡◌, refl, ap, ap₂, true, false, Option, none, some, List, [], ◌∷◌,
  ◌++◌, map, arith, get_elem?, set, ◌==◌, one_if, if◌then◌else◌, count, count-append, total,
  total-set, total-append, Bool-cases, inl, inr,
}
use tonio.Sync.Waiters.{new_event, set_event}
use tonio.Signals.{
  Phase, awaiting, notified, leaving, gone, Coro, System, start, sig_add, sig_rem, register,
  unwound, unwind, rem_all, exit, deliver_from, clear_event, send, turn, turn_from, Move, enters,
  exits, handles_at, handle_from, drop_at, delivers, turns, takes, step, run,
}

abbrev busy : Phase → ℕ
busy awaiting = 0
busy notified = 1
busy leaving = 1
busy gone = 0

-- Whether the coroutine of an event has cleared it and not yet sent.
abbrev flies : ℕ → Coro → ℕ
flies e c = if c.event == e then busy c.phase else 0

abbrev pub in_flight : ℕ → List Coro → ℕ
in_flight e cs = total (flies e) cs

pub count-drop_at :
    (hs : List ℕ) (k e d : ℕ)
    → get_elem? hs k ≡ some e
    → count d hs ≡ count d (drop_at k hs) + one_if (e == d)
count-drop_at [] k e d h = absurd (cc h)
count-drop_at (x ∷ hs) zero e d h = let q : x ≡ e = cc h in ground (arith, q)
count-drop_at (x ∷ hs) (suc k) e d h = ground (arith, count-drop_at hs k e d h)

record IsSound (s : System) : Type 0 where
  fresh : (e : ℕ) → s.events.made ≤ e → s.events.flag e ≡ false
  known : (sig e : ℕ) → s.handlers sig ≡ some e → e < s.events.made
  queued : (e : ℕ) → 1 ≤ count e s.handles → e < s.events.made
  accounted :
      (e : ℕ) → count e s.noted ≡ count e s.sent + in_flight e s.coros + one_if (s.events.flag e)

add-IsSound :
    (r sig : ℕ) (s : System)
    → IsSound s
    → let c : Coro = record { receiver = r; sig = sig; event = s.events.made; phase = awaiting } in
      let t = sig_add sig s in IsSound (record t { coros = t.coros ++ c ∷ [] })
unfolding sig_add new_event
add-IsSound r sig s v = record {
  fresh = λ e h. ground (arith, v.fresh e, h);
  known = λ g e h. ground (arith, v.known g e, h);
  queued = λ e h. omega (arith, v.queued e h);
  accounted = λ e. ground (
    arith,
    v.accounted e,
    v.fresh e,
    total-append (flies e) s.coros
        (record { receiver = r; sig = sig; event = s.events.made; phase = awaiting } ∷ []),
  );
}

register-IsSound : (r : ℕ) (sigs : List ℕ) (s : System) → IsSound s → IsSound (register r sigs s)
unfolding register
register-IsSound r [] s v = v
register-IsSound r (sig ∷ sigs) s v = register-IsSound r sigs _ (add-IsSound r sig s v)

rem_all-IsSound : (sigs : List ℕ) (s : System) → IsSound s → IsSound (rem_all sigs s)
unfolding rem_all sig_rem
rem_all-IsSound [] s v = v
rem_all-IsSound (sig ∷ sigs) s v = rem_all-IsSound sigs _ (record {
  fresh = v.fresh;
  known = λ g e h. ground (arith, v.known g e, h);
  queued = v.queued;
  accounted = v.accounted;
})

unwound-busy : (p : Phase) → busy (unwound p) ≡ busy p
unfolding unwound
unwound-busy awaiting = refl
unwound-busy notified = refl
unwound-busy leaving = refl
unwound-busy gone = refl

flies-unwind : (e r : ℕ) (c : Coro) → flies e (unwind r c) ≡ flies e c
unfolding unwind
flies-unwind e r c = ground (arith, unwound-busy c.phase)

unwind-in_flight : (e r : ℕ) (cs : List Coro) → in_flight e (map (unwind r) cs) ≡ in_flight e cs
unwind-in_flight e r [] = refl
unwind-in_flight e r (c ∷ cs) = ap₂ (◌+◌) (flies-unwind e r c) (unwind-in_flight e r cs)

exit-IsSound : (r : ℕ) (sigs : List ℕ) (s : System) → IsSound s → IsSound (exit r sigs s)
unfolding exit
exit-IsSound r sigs s v =
    let t = rem_all sigs s in
    let w = rem_all-IsSound sigs s v in
    record {
      fresh = w.fresh;
      known = w.known;
      queued = w.queued;
      accounted = λ e. omega (arith, w.accounted e, unwind-in_flight e r t.coros);
    }

deliver-IsSound :
    (o : Option ℕ) (s : System)
    → ((e : ℕ) → o ≡ some e → e < s.events.made)
    → IsSound s
    → IsSound (deliver_from o s)
unfolding deliver_from
deliver-IsSound none s h v = v
deliver-IsSound (some d) s h v = record {
  fresh = v.fresh;
  known = v.known;
  queued = λ e k. ground (arith, v.queued e, h d refl, k, count-append e s.handles (d ∷ []));
  accounted = v.accounted;
}

handle-IsSound :
    (o : Option ℕ) (k : ℕ) (s : System)
    → get_elem? s.handles k ≡ o
    → IsSound s
    → IsSound (handle_from o k s)
unfolding handle_from set_event
handle-IsSound none k s at v = v
handle-IsSound (some d) k s at v =
    let c = count-drop_at s.handles k d in
    let old : d < s.events.made = v.queued d (ground (arith, c d at)) in
    record {
      fresh = λ e h. ground (arith, v.fresh e, old, h);
      known = λ g e h. ground (arith, v.known g e, h);
      queued = λ e h. ground (arith, v.queued e (omega (arith, c e at, h)));
      accounted = λ e. ground (arith, v.accounted e, count-append e s.noted (d ∷ []));
    }

send-IsSound :
    (c : Coro) (p : Phase) (i : ℕ) (s : System)
    → get_elem? s.coros i ≡ some c
    → busy c.phase ≡ 1
    → busy p ≡ 0
    → IsSound s
    → IsSound (send c p i s)
unfolding send
send-IsSound c p i s at b q v = record {
  fresh = v.fresh;
  known = v.known;
  queued = v.queued;
  accounted = λ e. ground (
    arith,
    v.accounted e,
    b,
    q,
    count-append e s.sent (c.event ∷ []),
    total-set (flies e) s.coros i c (record c { phase = p }) at,
  );
}

-- A coroutine whose event is set clears it.
clear-IsSound :
    (c : Coro) (i : ℕ) (s : System)
    → get_elem? s.coros i ≡ some c
    → c.phase ≡ awaiting
    → s.events.flag c.event ≡ true
    → IsSound s
    → IsSound (record s {
      events = clear_event c.event s.events;
      coros = set s.coros i (record c { phase = notified });
    })
unfolding clear_event
clear-IsSound c i s at p f v = record {
  fresh = λ e k. ground (arith, v.fresh e, k);
  known = v.known;
  queued = v.queued;
  accounted = λ e. ground (
    arith,
    v.accounted e,
    f,
    p,
    total-set (flies e) s.coros i c (record c { phase = notified }) at,
  );
}

turn-IsSound :
    (p : Phase) (c : Coro) (i : ℕ) (s : System)
    → get_elem? s.coros i ≡ some c
    → c.phase ≡ p
    → IsSound s
    → IsSound (turn p c i s)
unfolding turn
turn-IsSound awaiting c i s at q v = elim (Bool-cases (s.events.flag c.event)) [
  | inl h ↦ simp h (clear-IsSound c i s at q h v)
  | inr h ↦ simp h v
]
turn-IsSound notified c i s at q v = send-IsSound c awaiting i s at (ap busy q) refl v
turn-IsSound leaving c i s at q v = send-IsSound c gone i s at (ap busy q) refl v
turn-IsSound gone c i s at q v = v

turn_from-IsSound :
    (o : Option Coro) (i : ℕ) (s : System)
    → get_elem? s.coros i ≡ o
    → IsSound s
    → IsSound (turn_from o i s)
unfolding turn_from
turn_from-IsSound none i s at v = v
turn_from-IsSound (some c) i s at v = turn-IsSound c.phase c i s at refl v

step-IsSound : (s : System) (m : Move) → IsSound s → IsSound (step s m)
unfolding step
step-IsSound s (enters r sigs) v = register-IsSound r sigs s v
step-IsSound s (exits r sigs) v = exit-IsSound r sigs s v
step-IsSound s (delivers sig) v = deliver-IsSound (s.handlers sig) s (v.known sig) v
step-IsSound s (turns i) v = turn_from-IsSound (get_elem? s.coros i) i s refl v
step-IsSound s (handles_at k) v = handle-IsSound (get_elem? s.handles k) k s refl v
step-IsSound s (takes r) v = record {
  fresh = v.fresh;
  known = v.known;
  queued = v.queued;
  accounted = v.accounted;
}

run-IsSound : (s : System) (ms : List Move) → IsSound s → IsSound (run s ms)
unfolding run
run-IsSound s [] v = v
run-IsSound s (m ∷ ms) v = run-IsSound (step s m) ms (step-IsSound s m v)

start-IsSound : IsSound start
unfolding start
start-IsSound = record {
  fresh = λ e h. refl;
  known = λ g e h. absurd (cc h);
  queued = λ e h. absurd (omega arith);
  accounted = λ e. omega arith;
}

-- However receivers are entered and left, and their coroutines and the signals come: each time that a
-- signal set an event, its coroutine has sent the signal once, or has cleared the event and is about to
-- send it, or the event is still set.
pub signals_accounted :
    (ms : List Move) (e : ℕ)
    → let s = run start ms in
      count e s.noted ≡ count e s.sent + in_flight e s.coros + one_if (s.events.flag e)
signals_accounted ms e = (run-IsSound start ms start-IsSound).accounted e
