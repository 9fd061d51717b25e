-- ===== src/Net/Tls/Receiving/Turns.antt =====
-- When a task waits on the transport with data before it that it has not looked at.
use tonio.Prelude.{
  ℕ, suc, ◌+◌, ◌≤◌, ◌≡◌, refl, Bool, true, not, ◌&&◌, Option, none, some, List, [], ◌∷◌, arith,
  get_elem?, set, ◌==◌, one_if, total, total-set, total-replicate, total-get_elem?,
}
use tonio.Net.Tls.Receiving.{
  Phase, outside, wanting, noted, reading, System, start, Move, wants, notes, locks, gives, fails,
  want_from, note_from, lock_from, give_from, fail_from, step, run,
}
use tonio.Net.Tls.Receiving.Snapshots.{is_late, receiving_shared}

abbrev is_wanting : Phase → ℕ
is_wanting (wanting g) = 1
is_wanting _ = 0

-- Tasks that have noted, or would note, another count than that at which the ssl object was asked.
abbrev is_behind : ℕ → Phase → ℕ
is_behind k outside = 0
is_behind k (wanting g) = one_if (not (g == k))
is_behind k (noted g c) = one_if (not (g == c))
is_behind k (reading g c) = one_if (not (g == c))

behind_le : (k j : ℕ) (p : Phase) → is_behind j p ≤ is_behind k p + is_wanting p
behind_le k j outside = omega arith
behind_le k j (wanting g) = ground arith
behind_le k j (noted g c) = omega arith
behind_le k j (reading g c) = omega arith

behind-total :
    (k j : ℕ) (ps : List Phase)
    → total (is_behind j) ps ≤ total (is_behind k) ps + total is_wanting ps
behind-total k j [] = omega arith
behind-total k j (p ∷ ps) = omega (arith, behind-total k j ps, behind_le k j p)

-- Whether data comes only while no task stands between the ssl object's answer and its note.
abbrev may : System → Move → Bool
may s (gives i bs) = total is_wanting s.tasks == 0
may s _ = true

abbrev pub in_turn : System → List Move → Bool
in_turn s [] = true
in_turn s (m ∷ ms) = may s m && in_turn (step s m) ms

abbrev behind_in : System → ℕ
behind_in s = total (is_behind s.recv_count) s.tasks

step-behind_in :
    (s : System) (m : Move) → may s m ≡ true → behind_in s ≡ 0 → behind_in (step s m) ≡ 0
unfolding step want_from note_from lock_from give_from fail_from
step-behind_in s (wants i) h v = want (get_elem? s.tasks i) refl
  where
    want : (o : Option Phase) → get_elem? s.tasks i ≡ o → behind_in (want_from o i s) ≡ 0
    want (some outside) at =
        ground
          (arith, v, total-set (is_behind s.recv_count) s.tasks i outside (wanting s.recv_count) at)
    want (some (wanting g)) at = v
    want (some (noted g c)) at = v
    want (some (reading g c)) at = v
    want none at = v
step-behind_in s (notes i) h v = note (get_elem? s.tasks i) refl
  where
    note : (o : Option Phase) → get_elem? s.tasks i ≡ o → behind_in (note_from o i s) ≡ 0
    note (some outside) at = v
    note (some (wanting g)) at = ground (
      arith,
      v,
      total-set (is_behind s.recv_count) s.tasks i (wanting g) (noted g s.recv_count) at,
    )
    note (some (noted g c)) at = v
    note (some (reading g c)) at = v
    note none at = v
step-behind_in s (locks i) h v = lock (get_elem? s.tasks i) refl
  where
    lock : (o : Option Phase) → get_elem? s.tasks i ≡ o → behind_in (lock_from o i s) ≡ 0
    lock (some outside) at = v
    lock (some (wanting g)) at = v
    lock (some (noted g c)) at = ground (
      arith,
      v,
      total-set (is_behind s.recv_count) s.tasks i (noted g c) (reading g c) at,
      total-set (is_behind s.recv_count) s.tasks i (noted g c) outside at,
    )
    lock (some (reading g c)) at = v
    lock none at = v
step-behind_in s (gives i bs) h v = give (get_elem? s.tasks i) refl
  where
    give : (o : Option Phase) → get_elem? s.tasks i ≡ o → behind_in (give_from o bs i s) ≡ 0
    give (some outside) at = v
    give (some (wanting g)) at = v
    give (some (noted g c)) at = v
    give (some (reading g c)) at = ground (
      arith,
      h,
      v,
      total-set (is_behind s.recv_count) s.tasks i (reading g c) outside at,
      total-set is_wanting s.tasks i (reading g c) outside at,
      behind-total s.recv_count (suc s.recv_count) (set s.tasks i outside),
    )
    give none at = v
step-behind_in s (fails i) h v = fail (get_elem? s.tasks i) refl
  where
    fail : (o : Option Phase) → get_elem? s.tasks i ≡ o → behind_in (fail_from o i s) ≡ 0
    fail (some outside) at = v
    fail (some (wanting g)) at = v
    fail (some (noted g c)) at = v
    fail (some (reading g c)) at =
        ground (arith, v, total-set (is_behind s.recv_count) s.tasks i (reading g c) outside at)
    fail none at = v

run-behind_in :
    (s : System) (ms : List Move) → in_turn s ms ≡ true → behind_in s ≡ 0 → behind_in (run s ms) ≡ 0
unfolding run
run-behind_in s [] h v = v
run-behind_in s (m ∷ ms) h v =
    run-behind_in (step s m) ms (ground (arith, h)) (step-behind_in s m (ground (arith, h)) v)

-- Where no data comes while a task stands between the ssl object's answer and its note of the count: a
-- task that waits on the transport had asked the ssl object with all before it that has come.
pub in_turn_asked :
    (n : ℕ) (ms : List Move) (i g c : ℕ)
    → in_turn (start n) ms ≡ true
    → get_elem? (run (start n) ms).tasks i ≡ some (reading g c)
    → g ≡ (run (start n) ms).recv_count
unfolding start
in_turn_asked n ms i g c h at =
    let s = run (start n) ms in
    let late = total-get_elem? (is_late s.recv_count) s.tasks i (reading g c) at in
    let behind = total-get_elem? (is_behind s.recv_count) s.tasks i (reading g c) at in
    ground (
      arith,
      late,
      behind,
      (receiving_shared n ms).1,
      run-behind_in (start n) ms h (total-replicate (is_behind 0) outside n refl),
    )

-- Two tasks ask the ssl object, and the first reads a chunk before the second notes the count: the second
-- waits on the transport too, though the chunk came after the ssl object had its question.
pub reads_again :
    (bs : List ℕ)
    → let s =
        run
          (start 2)
          (wants 0 ∷ wants 1 ∷ notes 0 ∷ locks 0 ∷ gives 0 bs ∷ notes 1 ∷ locks 1 ∷ []) in
      (s.recv_count ≡ 1) × (get_elem? s.tasks 1 ≡ some (reading 0 1))
unfolding run start step want_from note_from lock_from give_from
reads_again bs = (refl, refl)
