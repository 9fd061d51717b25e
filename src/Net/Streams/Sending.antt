-- ===== src/Net/Streams/Sending.antt =====
-- `send_all` writes the data once, in order, and all of it before it returns.
use tonio.Prelude.{
  ℕ, ◌+◌, ◌≤◌, ◌<◌, ◌≡◌, ◌≢◌, refl, sym, ap, ◌∙◌, Bool, true, false, List, [], ◌∷◌, ◌++◌, arith,
  length, take, drop, take-add, take-all, ltb, inl, inr, Bool-cases,
}
use tonio.Net.Streams.{
  Sent, bytes, fails, Progress, pending, finished, raised, after_eof, SendAll, send_loop, send_all,
}

-- What has been written is the data up to the count, and the loop ends only past the end of the data.
record Sound (data' : List ℕ) (r : SendAll) : Type 0 where
  prefix : r.written ≡ take r.total_sent data'
  complete : r.progress ≡ finished → length data' ≤ r.total_sent
  before_eof : r.progress ≢ after_eof

send_loop-Sound :
    (data' : List ℕ) (total : ℕ) (written : List ℕ) (answers : List Sent)
    → written ≡ take total data'
    → Sound data' (send_loop data' total written answers)
unfolding send_loop
send_loop-Sound data' total written [] h = record {
  prefix = h;
  complete = λ e. ground arith;
  before_eof = λ e. ground arith;
}
send_loop-Sound data' total written (fails x ∷ answers) h = record {
  prefix = h;
  complete = λ e. ground arith;
  before_eof = λ e. ground arith;
}
send_loop-Sound data' total written (bytes n ∷ answers) h =
    elim (Bool-cases (ltb total (length data'))) [
      | inl more ↦
          rw (more, send_loop)
            (send_loop-Sound data' (total + n) (written ++ take n (drop total data')) answers
              (ap (λ l. l ++ take n (drop total data')) h ∙ sym (take-add total n data')))
      | inr all ↦
          rw (all, send_loop)
            (record { prefix = h; complete = λ e. ground arith; before_eof = λ e. ground arith })
    ]

-- What an end of `send_all` says of the bytes written.
abbrev pub IsComplete : Progress → List ℕ → List ℕ → Type 0
IsComplete pending data' written = Unit
IsComplete finished data' written = written ≡ data'
IsComplete (raised e) data' written = Unit
IsComplete after_eof data' written = written ≡ []

Sound-IsComplete :
    (data' : List ℕ) (r : SendAll) → Sound data' r → IsComplete r.progress data' r.written
Sound-IsComplete data' r s = by_progress r.progress refl
  where
    by_progress : (p : Progress) → r.progress ≡ p → IsComplete p data' r.written
    by_progress pending h = tt
    by_progress finished h = s.prefix ∙ take-all _ data' (s.complete h)
    by_progress (raised e) h = tt
    by_progress after_eof h = absurd (s.before_eof h)

-- Whatever the socket answers, the bytes written are an initial part of the data, the first
-- `total_sent` of it; if `send_all` returns they are all of it, and if it fails because of EOF there
-- are none.
pub send_all_prefix :
    (eof : Bool) (data' : List ℕ) (answers : List Sent)
    → let r = send_all eof data' answers in
      (r.written ≡ take r.total_sent data') × IsComplete r.progress data' r.written
unfolding send_all
send_all_prefix true data' answers = (refl, refl)
send_all_prefix false [] answers = (refl, refl)
send_all_prefix false (b ∷ data') answers =
    let s = send_loop-Sound (b ∷ data') 0 [] answers refl in
    (s.prefix, Sound-IsComplete (b ∷ data') (send_loop (b ∷ data') 0 [] answers) s)

-- Answers that take at least one byte each.
abbrev pub Advancing : List Sent → Type 0
Advancing [] = Unit
Advancing (bytes n ∷ answers) = (0 < n) × Advancing answers
Advancing (fails e ∷ answers) = ⊥

send_loop_ends :
    (data' : List ℕ) (total : ℕ) (written : List ℕ) (answers : List Sent)
    → Advancing answers
    → length data' ≤ total + length answers
    → (send_loop data' total written answers).progress ≡ finished
unfolding send_loop
send_loop_ends data' total written [] adv h = ground arith
send_loop_ends data' total written (bytes n ∷ answers) adv h = ground (
  arith,
  send_loop_ends data' (total + n) (written ++ take n (drop total data')) answers adv.1
      (omega arith),
)
send_loop_ends data' total written (fails e ∷ answers) adv h = absurd adv

-- Before EOF, if the socket takes at least one byte at a time, as many answers as there are bytes are
-- enough for `send_all` to return with all of the data written.
pub send_all_total :
    (data' : List ℕ) (answers : List Sent)
    → Advancing answers
    → length data' ≤ length answers
    → let r = send_all false data' answers in (r.progress ≡ finished) × (r.written ≡ data')
unfolding send_all
send_all_total [] answers adv h = (refl, refl)
send_all_total (b ∷ data') answers adv h =
    let e = send_loop_ends (b ∷ data') 0 [] answers adv (omega arith) in
    let s = send_loop-Sound (b ∷ data') 0 [] answers refl in
    (e, s.prefix ∙ take-all _ (b ∷ data') (s.complete e))
