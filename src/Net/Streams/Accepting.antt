-- ===== src/Net/Streams/Accepting.antt =====
-- `SocketListener.accept` passes over ignorable errors only.
use tonio.Prelude.{ℕ, ◌≡◌, refl, ap, Bool, true, false, List, [], ◌∷◌, ◌++◌, inl, inr, Bool-cases}
use tonio.Net.Streams.{Accepted, socket, os_error, AcceptState, waiting, stream, failed, accept}

abbrev pub Ignored : (ℕ → Bool) → List Accepted → Type 0
Ignored ignorable [] = Unit
Ignored ignorable (socket s ∷ xs) = ⊥
Ignored ignorable (os_error e ∷ xs) = (ignorable e ≡ true) × Ignored ignorable xs

-- How an end of `accept` comes from the answers.
abbrev pub Explains : (ℕ → Bool) → List Accepted → AcceptState → Type 0
Explains ignorable answers waiting = Ignored ignorable answers
Explains ignorable answers (stream s) =
    (xs : List Accepted) × (ys : List Accepted) × Ignored ignorable xs
    × (answers ≡ xs ++ socket s ∷ ys)
Explains ignorable answers (failed e) =
    (xs : List Accepted) × (ys : List Accepted) × Ignored ignorable xs
    × (answers ≡ xs ++ os_error e ∷ ys)
    × (ignorable e ≡ false)

abbrev after_ignored :
    (ignorable : ℕ → Bool) (e : ℕ) (answers : List Accepted) (r : AcceptState)
    → ignorable e ≡ true
    → Explains ignorable answers r
    → Explains ignorable (os_error e ∷ answers) r
after_ignored ignorable e answers waiting h x = (h, x)
after_ignored ignorable e answers (stream s) h (xs, ys, p, q) =
    (os_error e ∷ xs, ys, (h, p), ap (◌∷◌ (os_error e)) q)
after_ignored ignorable e answers (failed n) h (xs, ys, p, q, k) =
    (os_error e ∷ xs, ys, (h, p), ap (◌∷◌ (os_error e)) q, k)

-- `accept` gives the first socket that comes, if only ignorable errors come before it; it raises the
-- first error that is not ignorable, if no socket comes before; and it goes on waiting only while all
-- that came were ignorable errors.
pub accept_result :
    (ignorable : ℕ → Bool) (answers : List Accepted)
    → Explains ignorable answers (accept ignorable answers)
unfolding accept
accept_result ignorable [] = tt
accept_result ignorable (socket s ∷ answers) = ([], answers, tt, refl)
accept_result ignorable (os_error e ∷ answers) = elim (Bool-cases (ignorable e)) [
  | inl h ↦ rw h (
      after_ignored ignorable e answers (accept ignorable answers) h
        (accept_result ignorable answers))
  | inr h ↦ rw h ([], answers, tt, refl, h)
]
