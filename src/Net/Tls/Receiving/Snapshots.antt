-- ===== src/Net/Tls/Receiving/Snapshots.antt =====
-- Which task reads from the transport, and when.
use tonio.Prelude.{
  ℕ, suc, ◌≤◌, ◌≡◌, refl, ap, Bool, true, false, not, Option, none, some, List, [], ◌∷◌, ◌++◌, map,
  arith, get_elem?, set, ◌==◌, one_if, if◌then◌else◌, length, length-append, total, total-set,
  total-replicate,
}
use tonio.Net.Tls.Receiving.{
  Phase, outside, wanting, noted, reading, System, start, Move, wants, notes, locks, gives, fails,
  want_from, note_from, lock_from, written, give_from, fail_from, step, run,
}

abbrev pub is_reading : Phase → ℕ
is_reading (reading g c) = 1
is_reading _ = 0

-- Readers whose note is not the count of now.
abbrev pub is_late : ℕ → Phase → ℕ
is_late k (reading g c) = one_if (not (c == k))
is_late k _ = 0

map-snoc :
    (cs : List (List ℕ)) (c : List ℕ)
    → map written (cs ++ c ∷ []) ≡ map written cs ++ written c ∷ []
map-snoc [] c = refl
map-snoc (d ∷ cs) c = ap (◌∷◌ (written d)) (map-snoc cs c)

late_le : (k : ℕ) (p : Phase) → is_late k p ≤ is_reading p
late_le k outside = omega arith
late_le k (wanting g) = omega arith
late_le k (noted g c) = omega arith
late_le k (reading g c) = ground arith

late-total : (k : ℕ) (ps : List Phase) → total (is_late k) ps ≤ total is_reading ps
late-total k [] = omega arith
late-total k (p ∷ ps) = omega (arith, late-total k ps, late_le k p)

record IsSound (s : System) : Type 0 where
  lock : total is_reading s.tasks ≡ one_if s.locked
  late : total (is_late s.recv_count) s.tasks ≡ 0
  counted : s.recv_count ≡ length s.chunks
  ordered : s.ingress ≡ map written s.chunks

-- A task that does not read goes to a phase in which it does not read.
move-IsSound :
    (i : ℕ) (p q : Phase) (s : System)
    → get_elem? s.tasks i ≡ some p
    → is_reading p ≡ 0
    → is_reading q ≡ 0
    → IsSound s
    → IsSound (record s { tasks = set s.tasks i q })
move-IsSound i p q s at n m v = record {
  lock = omega (arith, v.lock, n, m, total-set is_reading s.tasks i p q at);
  late = omega (
    arith,
    v.late,
    n,
    m,
    late_le s.recv_count p,
    late_le s.recv_count q,
    total-set (is_late s.recv_count) s.tasks i p q at,
  );
  counted = v.counted;
  ordered = v.ordered;
}

want-IsSound :
    (o : Option Phase) (i : ℕ) (s : System)
    → get_elem? s.tasks i ≡ o
    → IsSound s
    → IsSound (want_from o i s)
unfolding want_from
want-IsSound (some outside) i s at v =
    move-IsSound i outside (wanting s.recv_count) s at refl refl v
want-IsSound (some (wanting g)) i s at v = v
want-IsSound (some (noted g c)) i s at v = v
want-IsSound (some (reading g c)) i s at v = v
want-IsSound none i s at v = v

note-IsSound :
    (o : Option Phase) (i : ℕ) (s : System)
    → get_elem? s.tasks i ≡ o
    → IsSound s
    → IsSound (note_from o i s)
unfolding note_from
note-IsSound (some outside) i s at v = v
note-IsSound (some (wanting g)) i s at v =
    move-IsSound i (wanting g) (noted g s.recv_count) s at refl refl v
note-IsSound (some (noted g c)) i s at v = v
note-IsSound (some (reading g c)) i s at v = v
note-IsSound none i s at v = v

-- A task gets the free lock.
locked-IsSound :
    (b : Bool) (i g c : ℕ) (s : System)
    → get_elem? s.tasks i ≡ some (noted g c)
    → s.locked ≡ false
    → (c == s.recv_count) ≡ b
    → IsSound s
    → IsSound (
        if b
        then record s { locked = true; tasks = set s.tasks i (reading g c) }
        else record s { tasks = set s.tasks i outside })
locked-IsSound true i g c s at f e v = record {
  lock = ground (arith, v.lock, f, total-set is_reading s.tasks i (noted g c) (reading g c) at);
  late =
      ground
        (arith, v.late, e, total-set (is_late s.recv_count) s.tasks i (noted g c) (reading g c) at);
  counted = v.counted;
  ordered = v.ordered;
}
locked-IsSound false i g c s at f e v = move-IsSound i (noted g c) outside s at refl refl v

lock-IsSound :
    (o : Option Phase) (i : ℕ) (s : System)
    → get_elem? s.tasks i ≡ o
    → IsSound s
    → IsSound (lock_from o i s)
unfolding lock_from
lock-IsSound (some outside) i s at v = v
lock-IsSound (some (wanting g)) i s at v = v
lock-IsSound (some (noted g c)) i s at v =
    let t =
      if c == s.recv_count
      then record s { locked = true; tasks = set s.tasks i (reading g c) }
      else record s { tasks = set s.tasks i outside } in
    elim s.locked as (λ b. (s.locked ≡ b) → IsSound (if b then s else t)) [
      | true ↦ λ f. v
      | false ↦ λ f. locked-IsSound (c == s.recv_count) i g c s at f refl v
    ]
      refl
lock-IsSound (some (reading g c)) i s at v = v
lock-IsSound none i s at v = v

give-IsSound :
    (o : Option Phase) (bs : List ℕ) (i : ℕ) (s : System)
    → get_elem? s.tasks i ≡ o
    → IsSound s
    → IsSound (give_from o bs i s)
unfolding give_from
give-IsSound (some outside) bs i s at v = v
give-IsSound (some (wanting g)) bs i s at v = v
give-IsSound (some (noted g c)) bs i s at v = v
give-IsSound (some (reading g c)) bs i s at v =
    let n = total-set is_reading s.tasks i (reading g c) outside at in
    record {
      lock = ground (arith, v.lock, n);
      late = ground (arith, v.lock, n, late-total (suc s.recv_count) (set s.tasks i outside));
      counted = omega (arith, v.counted, length-append s.chunks (bs ∷ []));
      ordered = cc (v.ordered, map-snoc s.chunks bs);
    }
give-IsSound none bs i s at v = v

fail-IsSound :
    (o : Option Phase) (i : ℕ) (s : System)
    → get_elem? s.tasks i ≡ o
    → IsSound s
    → IsSound (fail_from o i s)
unfolding fail_from
fail-IsSound (some outside) i s at v = v
fail-IsSound (some (wanting g)) i s at v = v
fail-IsSound (some (noted g c)) i s at v = v
fail-IsSound (some (reading g c)) i s at v = record {
  lock = ground (arith, v.lock, total-set is_reading s.tasks i (reading g c) outside at);
  late = omega (arith, v.late, total-set (is_late s.recv_count) s.tasks i (reading g c) outside at);
  counted = v.counted;
  ordered = v.ordered;
}
fail-IsSound none i s at v = v

step-IsSound : (s : System) (m : Move) → IsSound s → IsSound (step s m)
unfolding step
step-IsSound s (wants i) v = want-IsSound (get_elem? s.tasks i) i s refl v
step-IsSound s (notes i) v = note-IsSound (get_elem? s.tasks i) i s refl v
step-IsSound s (locks i) v = lock-IsSound (get_elem? s.tasks i) i s refl v
step-IsSound s (gives i bs) v = give-IsSound (get_elem? s.tasks i) bs i s refl v
step-IsSound s (fails i) v = fail-IsSound (get_elem? s.tasks i) i s refl v

run-IsSound : (s : System) (ms : List Move) → IsSound s → IsSound (run s ms)
unfolding run
run-IsSound s [] v = v
run-IsSound s (m ∷ ms) v = run-IsSound (step s m) ms (step-IsSound s m v)

start-IsSound : (n : ℕ) → IsSound (start n)
unfolding start
start-IsSound n = record {
  lock = omega (arith, total-replicate is_reading outside n refl);
  late = omega (arith, total-replicate (is_late 0) outside n refl);
  counted = refl;
  ordered = refl;
}

-- However the tasks that read from a stream move: at most one of them waits on the transport; none does
-- that noted the count before the last read of another; the count is the number of chunks that
-- came, and all of them were written to the ssl object, in their order.
pub receiving_shared :
    (n : ℕ) (ms : List Move)
    → let s = run (start n) ms in
      (total is_reading s.tasks ≤ 1)
      × (total (is_late s.recv_count) s.tasks ≡ 0)
      × (s.recv_count ≡ length s.chunks)
      × (s.ingress ≡ map written s.chunks)
receiving_shared n ms =
    let v = run-IsSound (start n) ms (start-IsSound n) in
    (ground (arith, v.lock), v.late, v.counted, v.ordered)
