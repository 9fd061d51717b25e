-- ===== src/Time/Expiry.antt =====
-- `timeout` gives the coroutine's end if that comes before the wake-up.
use tonio.Prelude.{
  ◌≡◌, refl, sym, ap, ◌∙◌, arith, Bool, true, false, Option, none, some, List, [], ◌∷◌,
  if◌then◌else◌,
}
use tonio.Time.{
  End, returned, raised, cancelled, Answer, value, error, timed_out, type_error, Timeout, Move,
  ends, wakes, started, stored, unpack, settle, step, run,
}

module _ {V E : Type 0} where
  abbrev pub comes_back : List (Move V E) → Bool
  comes_back [] = false
  comes_back (wakes ∷ ms) = true
  comes_back (ends x ∷ ms) = comes_back ms

  abbrev pub answer_of : End V E → Answer V E
  answer_of (returned v) = value v
  answer_of (raised e) = error e
  answer_of cancelled = type_error

  -- The answer by the order of the moves: what comes first decides.
  abbrev pub expected : List (Move V E) → Option (Answer V E)
  expected [] = none
  expected (wakes ∷ ms) = some timed_out
  expected (ends x ∷ ms) = if comes_back ms then some (answer_of x) else none

  abbrev pub is_expired : Option (Answer V E) → Bool
  is_expired (some timed_out) = true
  is_expired _ = false

  step_keeps :
      (t : Timeout V E) (a : Answer V E) (m : Move V E)
      → t.answer ≡ some a
      → ((step t m).answer ≡ some a) × ((step t m).unwound ≡ t.unwound)
  unfolding step
  step_keeps t a (ends x) h = ground arith
  step_keeps t a wakes h = ground arith

  -- An answer that is there stays.
  answered_stays :
      (t : Timeout V E) (a : Answer V E) (ms : List (Move V E))
      → t.answer ≡ some a
      → ((run t ms).answer ≡ some a) × ((run t ms).unwound ≡ t.unwound)
  unfolding run
  answered_stays t a [] h = (h, refl)
  answered_stays t a (m ∷ ms) h =
      let k = step_keeps t a m h in let r = answered_stays (step t m) a ms k.0 in (r.0, r.1 ∙ k.1)

  unpack-stored : (x : End V E) → unpack (stored x) ≡ answer_of x
  unfolding unpack stored
  unpack-stored (returned v) = refl
  unpack-stored (raised e) = refl
  unpack-stored cancelled = refl

  -- Once the wrapper has ended, the wait gives what it stored.
  ended_answers :
      (x : End V E) (ms : List (Move V E))
      → let t : Timeout V E = record {
        done = true;
        res = stored x;
        unwound = false;
        answer = none;
      } in
        ((run t ms).answer ≡ (if comes_back ms then some (answer_of x) else none))
        × ((run t ms).unwound ≡ false)
  unfolding run step settle
  ended_answers x [] = (refl, refl)
  ended_answers x (ends y ∷ ms) = ended_answers x ms
  ended_answers x (wakes ∷ ms) =
      let t : Timeout V E = record {
        done = true;
        res = stored x;
        unwound = false;
        answer = some (unpack (stored x));
      } in
      let s = answered_stays t (unpack (stored x)) ms refl in (s.0 ∙ ap some (unpack-stored x), s.1)

  not_expired :
      (x : End V E) (b : Bool) → is_expired (if b then some (answer_of x) else none) ≡ false
  not_expired x false = refl
  not_expired (returned v) true = refl
  not_expired (raised e) true = refl
  not_expired cancelled true = refl

  -- In any order of the wrapper's end and the wake-up: if the end comes first, `timeout` gives the
  -- coroutine's value or error once it wakes, or a TypeError if the coroutine was cancelled from
  -- within; if the wake-up comes first, it gives `(None, False)`. The coroutine is unwound in the last
  -- case and in no other.
  pub timeout_result :
      (ms : List (Move V E))
      → let t = run started ms in (t.answer ≡ expected ms) × (t.unwound ≡ is_expired (expected ms))
  unfolding run step settle started
  timeout_result [] = (refl, refl)
  timeout_result (wakes ∷ ms) =
      let t : Timeout V E = record {
        done = false;
        res = none;
        unwound = true;
        answer = some timed_out;
      } in
      answered_stays t timed_out ms refl
  timeout_result (ends x ∷ ms) =
      let s = ended_answers x ms in (s.0, s.1 ∙ sym (not_expired x (comes_back ms)))
