-- ===== src/Net/Tls/Sharing/Order.antt =====
-- In which order the transport is given what several tasks write.
use tonio.Prelude.{
  ℕ, ◌≤◌, ◌≡◌, refl, sym, ap, ◌∙◌, Bool, true, false, ◌&&◌, Option, none, some, List, [], ◌∷◌, ◌++◌,
  append_assoc, append-nil, arith, get_elem?, set, total, total-set, total-replicate, ◌==◌,
  replicate, Bool-cases, inl, inr, get_elem?-set_self, one_if,
}
use tonio.Net.Tls.Sharing.{
  Phase, outside, stepped, sending, System, start, Move, writes, locks, sends, fails, cancels,
  cancel_from, write_from, lock_from, send_from, fail_from, step, run,
}
use tonio.Net.Tls.Sharing.Bytes.{Kept, is_sending, step-Kept, start-Kept}
use tonio.Net.Tls.Sharing.Gather.{
  sending_of, stepped_of, is_stepped, gather, none_left, lone, gather-set, not_sending, not_stepped,
}

-- Whether a task steps only while no other stands between its step and the lock.
abbrev may : System → Move → Bool
may s (writes i d) = total is_stepped s.tasks == 0
may s _ = true

abbrev pub in_turn : System → List Move → Bool
in_turn s [] = true
in_turn s (m ∷ ms) = may s m && in_turn (step s m) ms

abbrev Told : System → Type 0
Told s =
    s.lost ≡ []
    → s.dropped ≡ []
    → s.produced ≡ s.given ++ (gather sending_of s.tasks ++ (s.egress ++ gather stepped_of s.tasks))

write-Told :
    (i : ℕ) (d : List ℕ) (s : System)
    → get_elem? s.tasks i ≡ some outside
    → total is_stepped s.tasks ≡ 0
    → Told s
    → Told (record s { tasks = set s.tasks i (stepped d); produced = s.produced ++ d })
write-Told i d s at z v l q =
    let a = gather-set sending_of s.tasks i outside (stepped d) at refl refl in
    let b = none_left stepped_of is_stepped not_stepped s.tasks z in
    let c =
      lone stepped_of is_stepped not_stepped (set s.tasks i (stepped d)) i (stepped d)
        (omega (arith, z, total-set is_stepped s.tasks i outside (stepped d) at))
        (get_elem?-set_self s.tasks i (stepped d) outside at) refl in
    rw (a, c, v l q, b) (simp (append_assoc, append-nil) refl)

lock-Told :
    (i : ℕ) (d : List ℕ) (s : System)
    → get_elem? s.tasks i ≡ some (stepped d)
    → total is_sending s.tasks ≡ 0
    → total is_stepped s.tasks ≤ 1
    → Told s
    → Told
        (record s { locked = true; egress = []; tasks = set s.tasks i (sending (s.egress ++ d)) })
lock-Told i d s at z one v l q =
    let p = sending (s.egress ++ d) in
    let a = none_left sending_of is_sending not_sending s.tasks z in
    let b = lone stepped_of is_stepped not_stepped s.tasks i (stepped d) one at refl in
    let c =
      lone sending_of is_sending not_sending (set s.tasks i p) i p
        (omega (arith, z, total-set is_sending s.tasks i (stepped d) p at))
        (get_elem?-set_self s.tasks i p (stepped d) at) refl in
    let e =
      none_left stepped_of is_stepped not_stepped (set s.tasks i p)
        (omega (arith, one, total-set is_stepped s.tasks i (stepped d) p at)) in
    rw (c, e, v l q, a, b) (simp (append_assoc, append-nil) refl)

send-Told :
    (i : ℕ) (d : List ℕ) (s : System)
    → get_elem? s.tasks i ≡ some (sending d)
    → total is_sending s.tasks ≤ 1
    → Told s
    → Told (record s { locked = false; tasks = set s.tasks i outside; given = s.given ++ d })
send-Told i d s at one v l q =
    let a = lone sending_of is_sending not_sending s.tasks i (sending d) one at refl in
    let b =
      none_left sending_of is_sending not_sending (set s.tasks i outside)
        (omega (arith, one, total-set is_sending s.tasks i (sending d) outside at)) in
    let c = gather-set stepped_of s.tasks i (sending d) outside at refl refl in
    rw (b, c, v l q, a) (simp append_assoc refl)

both_nil : (xs ys : List ℕ) → xs ++ ys ≡ [] → (xs ≡ []) × (ys ≡ [])
both_nil [] ys h = (refl, h)
both_nil (x ∷ xs) ys h = cc h

fail-Told :
    (i : ℕ) (d : List ℕ) (s : System)
    → get_elem? s.tasks i ≡ some (sending d)
    → total is_sending s.tasks ≤ 1
    → Told s
    → Told (record s { locked = false; tasks = set s.tasks i outside; lost = s.lost ++ d })
fail-Told i d s at one v l q =
    let (k, n) = both_nil s.lost d l in
    send-Told i d s at one v k q
    ∙ ap
        (λ c.
          (s.given ++ c)
          ++ (gather sending_of (set s.tasks i outside)
              ++ (s.egress ++ gather stepped_of (set s.tasks i outside))))
        n
    ∙ simp append-nil refl

cancel-Told :
    (i : ℕ) (d : List ℕ) (s : System)
    → get_elem? s.tasks i ≡ some (stepped d)
    → total is_stepped s.tasks ≤ 1
    → Told s
    → Told (record s { tasks = set s.tasks i outside; dropped = s.dropped ++ d })
cancel-Told i d s at one v l q =
    let (k, n) = both_nil s.dropped d q in
    let a = lone stepped_of is_stepped not_stepped s.tasks i (stepped d) one at refl in
    let b =
      none_left stepped_of is_stepped not_stepped (set s.tasks i outside)
        (omega (arith, one, total-set is_stepped s.tasks i (stepped d) outside at)) in
    let c = gather-set sending_of s.tasks i (stepped d) outside at refl refl in
    rw (b, c, v l k, a, n) refl

record Ordered (s : System) : Type 0 where
  one : total is_stepped s.tasks ≤ 1
  told : Told s

write-Ordered :
    (o : Option Phase) (i : ℕ) (d : List ℕ) (s : System)
    → get_elem? s.tasks i ≡ o
    → total is_stepped s.tasks ≡ 0
    → Ordered s
    → Ordered (write_from o i d s)
unfolding write_from
write-Ordered none i d s at z v = v
write-Ordered (some (stepped c)) i d s at z v = v
write-Ordered (some (sending c)) i d s at z v = v
write-Ordered (some outside) i d s at z v = record {
  one = omega (arith, z, total-set is_stepped s.tasks i outside (stepped d) at);
  told = write-Told i d s at z v.told;
}

lock-Ordered :
    (o : Option Phase) (i : ℕ) (s : System)
    → get_elem? s.tasks i ≡ o
    → total is_sending s.tasks ≡ one_if s.locked
    → Ordered s
    → Ordered (lock_from o i s)
unfolding lock_from
lock-Ordered none i s at k v = v
lock-Ordered (some outside) i s at k v = v
lock-Ordered (some (sending c)) i s at k v = v
lock-Ordered (some (stepped d)) i s at k v = elim (Bool-cases s.locked) [
  | inl h ↦ simp h v
  | inr h ↦ simp h (record {
    one =
        omega
          (arith, v.one, total-set is_stepped s.tasks i (stepped d) (sending (s.egress ++ d)) at);
    told = lock-Told i d s at (k ∙ ap one_if h) v.one v.told;
  })
]

send-Ordered :
    (o : Option Phase) (i : ℕ) (s : System)
    → get_elem? s.tasks i ≡ o
    → total is_sending s.tasks ≤ 1
    → Ordered s
    → Ordered (send_from o i s)
unfolding send_from
send-Ordered none i s at k v = v
send-Ordered (some outside) i s at k v = v
send-Ordered (some (stepped c)) i s at k v = v
send-Ordered (some (sending d)) i s at k v = record {
  one = omega (arith, v.one, total-set is_stepped s.tasks i (sending d) outside at);
  told = send-Told i d s at k v.told;
}

fail-Ordered :
    (o : Option Phase) (i : ℕ) (s : System)
    → get_elem? s.tasks i ≡ o
    → total is_sending s.tasks ≤ 1
    → Ordered s
    → Ordered (fail_from o i s)
unfolding fail_from
fail-Ordered none i s at k v = v
fail-Ordered (some outside) i s at k v = v
fail-Ordered (some (stepped c)) i s at k v = v
fail-Ordered (some (sending d)) i s at k v = record {
  one = omega (arith, v.one, total-set is_stepped s.tasks i (sending d) outside at);
  told = fail-Told i d s at k v.told;
}

cancel-Ordered :
    (o : Option Phase) (i : ℕ) (s : System)
    → get_elem? s.tasks i ≡ o
    → Ordered s
    → Ordered (cancel_from o i s)
unfolding cancel_from
cancel-Ordered none i s at v = v
cancel-Ordered (some outside) i s at v = v
cancel-Ordered (some (sending c)) i s at v = v
cancel-Ordered (some (stepped d)) i s at v = record {
  one = omega (arith, v.one, total-set is_stepped s.tasks i (stepped d) outside at);
  told = cancel-Told i d s at v.one v.told;
}

step-Ordered : (s : System) (m : Move) → Kept s → may s m ≡ true → Ordered s → Ordered (step s m)
unfolding step
step-Ordered s (writes i d) k t v = write-Ordered (get_elem? s.tasks i) i d s refl (ground arith) v
step-Ordered s (locks i) k t v = lock-Ordered (get_elem? s.tasks i) i s refl k.lock v
step-Ordered s (sends i) k t v =
    send-Ordered (get_elem? s.tasks i) i s refl (ground (arith, k.lock)) v
step-Ordered s (fails i) k t v =
    fail-Ordered (get_elem? s.tasks i) i s refl (ground (arith, k.lock)) v
step-Ordered s (cancels i) k t v = cancel-Ordered (get_elem? s.tasks i) i s refl v

run-Ordered :
    (s : System) (ms : List Move) → Kept s → in_turn s ms ≡ true → Ordered s → Ordered (run s ms)
unfolding run
run-Ordered s [] k t v = v
run-Ordered s (m ∷ ms) k t v =
    run-Ordered (step s m) ms (step-Kept s m k) (ground arith) (step-Ordered s m k (ground arith) v)

start-Ordered : (rest : List ℕ) (n : ℕ) → Ordered (start rest n)
unfolding start
start-Ordered rest n = record {
  one = omega (arith, total-replicate is_stepped outside n refl);
  told = λ l q.
      rw
        (
          none_left sending_of is_sending not_sending (replicate n outside)
              (total-replicate is_sending outside n refl),
          none_left stepped_of is_stepped not_stepped (replicate n outside)
              (total-replicate is_stepped outside n refl),
        )
        (sym (append-nil rest));
}

-- Where no task steps while another stands between its step and the lock, no send fails,
-- and no task that had something to send is cancelled while it waits for the lock, the transport is given what the ssl object wrote in the order in which it was written: what was given,
-- what a task is sending, what stands in the egress stack, and what a task is about to send make up
-- all that was written.
pub in_turn_order :
    (rest : List ℕ) (n : ℕ) (ms : List Move)
    → in_turn (start rest n) ms ≡ true
    → (run (start rest n) ms).lost ≡ []
    → (run (start rest n) ms).dropped ≡ []
    → let s = run (start rest n) ms in
      s.produced ≡ s.given ++ (gather sending_of s.tasks ++ (s.egress ++ gather stepped_of s.tasks))
in_turn_order rest n ms t l q =
    (run-Ordered (start rest n) ms (start-Kept rest n) t (start-Ordered rest n)).told l q

-- The first of two tasks steps, then the second, and the second gets the lock first: the transport is
-- given the second one's bytes before those of the first, which the ssl object wrote before.
pub steps_swapped :
    (c d : List ℕ)
    → let s =
        run (start [] 2) (writes 0 c ∷ writes 1 d ∷ locks 1 ∷ sends 1 ∷ locks 0 ∷ sends 0 ∷ []) in
      (s.produced ≡ c ++ d) × (s.given ≡ d ++ c)
unfolding run start step write_from lock_from send_from
steps_swapped c d = (refl, refl)
