-- ===== src/Net/Tls/Sharing/Bytes.antt =====
-- What several tasks write is given to the transport once, one task at a time.
use tonio.Prelude.{
  ℕ, ◌+◌, ◌≤◌, ◌≡◌, refl, true, false, Option, none, some, List, [], ◌∷◌, ◌++◌, arith, get_elem?,
  set, total, total-set, total-replicate, count, count-append, one_if, Bool-cases, inl, inr,
}
use tonio.Net.Tls.Sharing.{
  Phase, outside, stepped, sending, System, start, Move, writes, locks, sends, fails, cancels,
  cancel_from, write_from, lock_from, send_from, fail_from, step, run,
}

abbrev held : Phase → List ℕ
held outside = []
held (stepped d) = d
held (sending d) = d

abbrev pub is_sending : Phase → ℕ
is_sending (sending d) = 1
is_sending _ = 0

-- How often a byte is in the hands of tasks.
abbrev pub in_hands : ℕ → List Phase → ℕ
in_hands b ts = total (λ p. count b (held p)) ts

pub record Kept (s : System) : Type 0 where
  pub bytes :
      (b : ℕ)
      → count b s.produced
        ≡ count b s.given
          + count b s.lost
          + count b s.dropped
          + count b s.egress
          + in_hands b s.tasks
  pub lock : total is_sending s.tasks ≡ one_if s.locked

write-Kept :
    (o : Option Phase) (i : ℕ) (d : List ℕ) (s : System)
    → get_elem? s.tasks i ≡ o
    → Kept s
    → Kept (write_from o i d s)
unfolding write_from
write-Kept none i d s at v = v
write-Kept (some (stepped c)) i d s at v = v
write-Kept (some (sending c)) i d s at v = v
write-Kept (some outside) i d s at v = record {
  bytes = λ b. omega (
    arith,
    v.bytes b,
    count-append b s.produced d,
    total-set (λ p. count b (held p)) s.tasks i outside (stepped d) at,
  );
  lock = omega (arith, v.lock, total-set is_sending s.tasks i outside (stepped d) at);
}

-- A task gets a lock that is free.
taken-Kept :
    (i : ℕ) (d : List ℕ) (s : System)
    → get_elem? s.tasks i ≡ some (stepped d)
    → s.locked ≡ false
    → Kept s
    → Kept
        (record s { locked = true; egress = []; tasks = set s.tasks i (sending (s.egress ++ d)) })
taken-Kept i d s at h v = record {
  bytes = λ b. omega (
    arith,
    v.bytes b,
    count-append b s.egress d,
    total-set (λ p. count b (held p)) s.tasks i (stepped d) (sending (s.egress ++ d)) at,
  );
  lock =
      ground
        (arith, v.lock, h, total-set is_sending s.tasks i (stepped d) (sending (s.egress ++ d)) at);
}

lock-Kept :
    (o : Option Phase) (i : ℕ) (s : System)
    → get_elem? s.tasks i ≡ o
    → Kept s
    → Kept (lock_from o i s)
unfolding lock_from
lock-Kept none i s at v = v
lock-Kept (some outside) i s at v = v
lock-Kept (some (sending c)) i s at v = v
lock-Kept (some (stepped d)) i s at v = elim (Bool-cases s.locked) [
  | inl h ↦ simp h v
  | inr h ↦ simp h (taken-Kept i d s at h v)
]

send-Kept :
    (o : Option Phase) (i : ℕ) (s : System)
    → get_elem? s.tasks i ≡ o
    → Kept s
    → Kept (send_from o i s)
unfolding send_from
send-Kept none i s at v = v
send-Kept (some outside) i s at v = v
send-Kept (some (stepped c)) i s at v = v
send-Kept (some (sending d)) i s at v = record {
  bytes = λ b. omega (
    arith,
    v.bytes b,
    count-append b s.given d,
    total-set (λ p. count b (held p)) s.tasks i (sending d) outside at,
  );
  lock = ground (arith, v.lock, total-set is_sending s.tasks i (sending d) outside at);
}

fail-Kept :
    (o : Option Phase) (i : ℕ) (s : System)
    → get_elem? s.tasks i ≡ o
    → Kept s
    → Kept (fail_from o i s)
unfolding fail_from
fail-Kept none i s at v = v
fail-Kept (some outside) i s at v = v
fail-Kept (some (stepped c)) i s at v = v
fail-Kept (some (sending d)) i s at v = record {
  bytes = λ b. omega (
    arith,
    v.bytes b,
    count-append b s.lost d,
    total-set (λ p. count b (held p)) s.tasks i (sending d) outside at,
  );
  lock = ground (arith, v.lock, total-set is_sending s.tasks i (sending d) outside at);
}

cancel-Kept :
    (o : Option Phase) (i : ℕ) (s : System)
    → get_elem? s.tasks i ≡ o
    → Kept s
    → Kept (cancel_from o i s)
unfolding cancel_from
cancel-Kept none i s at v = v
cancel-Kept (some outside) i s at v = v
cancel-Kept (some (sending c)) i s at v = v
cancel-Kept (some (stepped d)) i s at v = record {
  bytes = λ b. omega (
    arith,
    v.bytes b,
    count-append b s.dropped d,
    total-set (λ p. count b (held p)) s.tasks i (stepped d) outside at,
  );
  lock = omega (arith, v.lock, total-set is_sending s.tasks i (stepped d) outside at);
}

pub step-Kept : (s : System) (m : Move) → Kept s → Kept (step s m)
unfolding step
step-Kept s (writes i d) v = write-Kept (get_elem? s.tasks i) i d s refl v
step-Kept s (locks i) v = lock-Kept (get_elem? s.tasks i) i s refl v
step-Kept s (sends i) v = send-Kept (get_elem? s.tasks i) i s refl v
step-Kept s (fails i) v = fail-Kept (get_elem? s.tasks i) i s refl v
step-Kept s (cancels i) v = cancel-Kept (get_elem? s.tasks i) i s refl v

run-Kept : (s : System) (ms : List Move) → Kept s → Kept (run s ms)
unfolding run
run-Kept s [] v = v
run-Kept s (m ∷ ms) v = run-Kept (step s m) ms (step-Kept s m v)

pub start-Kept : (rest : List ℕ) (n : ℕ) → Kept (start rest n)
unfolding start
start-Kept rest n = record {
  bytes = λ b. omega (arith, total-replicate (λ p. count b (held p)) outside n refl);
  lock = omega (arith, total-replicate is_sending outside n refl);
}

-- However the tasks step, get the lock, are cancelled while they wait for it, and end their sends: at most
-- one is sending, and every byte that the ssl object wrote was given to the transport, was in a send that
-- failed, was dropped by a task that was cancelled at its wait for the lock, stands in the egress stack, or
-- is in the hands of a task, as often as it was written.
pub sharing_keeps :
    (rest : List ℕ) (n : ℕ) (ms : List Move)
    → let s = run (start rest n) ms in
      (total is_sending s.tasks ≤ 1)
      × ((b : ℕ)
          → count b s.produced
            ≡ count b s.given
              + count b s.lost
              + count b s.dropped
              + count b s.egress
              + in_hands b s.tasks)
sharing_keeps rest n ms =
    let v = run-Kept (start rest n) ms (start-Kept rest n) in (ground (arith, v.lock), v.bytes)
