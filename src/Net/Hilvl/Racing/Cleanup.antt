-- ===== src/Net/Hilvl/Racing/Cleanup.antt =====
-- However the attempts interleave, no socket is left open but the stream's.
use tonio.Prelude.{
  ℕ, ◌+◌, ◌≤◌, ◌<◌, ◌≡◌, refl, sym, ap, subst, ◌∙◌, Bool, true, false, ◌&&◌, ◌||◌, Option, none,
  some, List, [], ◌∷◌, arith, length, count, one_if, ltb, ◌==◌, if◌then◌else◌, inl, inr, Bool-cases,
  total,
}
use tonio.Net.Hilvl.Racing.{
  Attempt, Race, Move, start, run, Outcome, pending, stream, failed, assertion, close_error,
  is_ended, after_close, all_ended, won, remove, close_all, leave, settle, finish,
}
use tonio.Net.Hilvl.Racing.Invariant.{Inv, Lost, Won, start-Inv, run-Inv}

count-remove :
    (w : ℕ) (ss : List ℕ) (i : ℕ) → count i (remove w ss) ≡ (if w == i then 0 else count i ss)
unfolding remove
count-remove w [] i = ground arith
count-remove w (s ∷ ss) i = ground (arith, count-remove w ss i)

closed-close_all : (closing : ℕ → Option ℕ) (ss : List ℕ) → (close_all closing ss).0 ≡ ss
unfolding close_all
closed-close_all closing [] = refl
closed-close_all closing (s ∷ ss) = ap (◌∷◌ s) (closed-close_all closing ss)

all_ended-total :
    (ps : List Attempt) → all_ended ps ≡ true → total (λ p. one_if (is_ended p)) ps ≡ length ps
all_ended-total [] h = refl
all_ended-total (p ∷ ps) h = ground (arith, all_ended-total ps)

abbrev pub is_winner : Option ℕ → ℕ → Bool
is_winner none i = false
is_winner (some w) i = w == i

-- The sockets closed are those made, each once, but the winner.
abbrev pub AllClosed : Race → List ℕ → Type 0
AllClosed r closed =
    (i : ℕ) → count i closed ≡ (if is_winner r.winner i then 0 else one_if (ltb i r.made))

-- What each outcome of the block says.
abbrev pub Clean : ℕ → Race → Outcome → List ℕ → Type 0
Clean n r pending closed = closed ≡ []
Clean n r (stream w) closed = (r.winner ≡ some w) × (w < r.made) × AllClosed r closed
Clean n r (failed es) closed =
    (r.winner ≡ none) × (length es ≡ n) × (r.crashed ≡ 0) × AllClosed r closed
Clean n r assertion closed = (r.winner ≡ none) × (1 ≤ r.crashed) × AllClosed r closed
Clean n r (close_error es) closed = AllClosed r closed

leave-Clean :
    (closing : ℕ → Option ℕ) (socks : List ℕ) (o : Outcome) (n : ℕ) (r : Race)
    → Clean n r o socks
    → AllClosed r socks
    → let f = leave closing socks o in Clean n r f.outcome f.closed
unfolding leave
leave-Clean closing socks o n r c a =
    by_errors (close_all closing socks).1 (close_all closing socks).0
      (closed-close_all closing socks)
  where
    by_errors : (es closed : List ℕ) → closed ≡ socks → Clean n r (after_close es o) closed
    by_errors [] closed e = subst (Clean n r o) (sym e) c
    by_errors (x ∷ es) closed e = subst (AllClosed r) (sym e) a

settle-Clean :
    (closing : ℕ → Option ℕ) (n : ℕ) (w : Option ℕ) (r : Race)
    → r.winner ≡ w
    → Inv r
    → length r.tasks ≡ n
    → won w || all_ended r.tasks ≡ true
    → let f = settle closing n w r in Clean n r f.outcome f.closed
unfolding settle
settle-Clean closing n none r h v t a =
    let all : AllClosed r r.open_sockets = λ i. rw h (v.opened i) in
    let lost : length r.errs + r.crashed ≡ n =
      subst (λ x. Lost x r.crashed r.errs r.tasks) h v.lost ∙ all_ended-total r.tasks a ∙ t in
    elim (Bool-cases (length r.errs == n)) [
      | inl q ↦ rw q (
          leave-Clean closing r.open_sockets (failed r.errs) n r
            (h, ground (arith, q), ground (arith, q, lost), all) all)
      | inr q ↦
          rw q
            (leave-Clean closing r.open_sockets assertion n r (h, ground (arith, q, lost), all) all)
    ]
settle-Clean closing n (some w) r h v t a =
    let all : AllClosed r (remove w r.open_sockets) =
      λ i. rw h (ground (arith, count-remove w r.open_sockets i, v.opened i)) in
    leave-Clean closing (remove w r.open_sockets) (stream w) n r
      (h, subst (λ x. Won x r.made) h v.winner, all) all

-- Whatever the order in which the attempts on `n` targets go on, fail and connect, and whatever closing
-- a socket raises, where the attempts that are aborted with the scope make no more steps: when the block ends, every socket that was made has been closed exactly
-- once, but the winner's; a stream is that of the winner, whose socket was made and not closed; OSError
-- is raised only without a winner, from one error for each of the `n` targets, none of whose attempts
-- ended otherwise; and the assertion fails only without a winner, where an attempt ended with an
-- exception that is no OSError.
pub finish-Clean :
    (closing : ℕ → Option ℕ) (local : Bool) (n : ℕ) (ms : List Move)
    → let r = run local n start ms in let f = finish closing n r in Clean n r f.outcome f.closed
unfolding finish
finish-Clean closing local n ms =
    let r = run local n start ms in
    elim (Bool-cases (length r.tasks == n && (won r.winner || all_ended r.tasks))) [
      | inl h ↦ rw h (
          settle-Clean closing n r.winner r refl (run-Inv local n start ms start-Inv)
            (ground (arith, h)) (ground (arith, h)))
      | inr h ↦ rw h refl
    ]
