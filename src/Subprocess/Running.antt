-- ===== src/Subprocess/Running.antt =====
-- What `run_process` collects, and how it ends.
use tonio.Prelude.{
  ℕ, ◌≡◌, ◌≢◌, ◌⊎◌, refl, ap, Bool, true, false, not, ◌&&◌, Option, none, some, List, [], ◌∷◌, ◌++◌,
  arith, ◌==◌, if◌then◌else◌, inl, inr, Bool-cases,
}
use tonio.Subprocess.{
  Request, called_process, unicode_error, value_error, type_error, os_error, Completed, completed,
  check_failed, output, read_output, complete,
}

-- Chunks that are not empty, joined.
abbrev pub NonEmpty : List (List ℕ) → Type 0
NonEmpty [] = Unit
NonEmpty (c ∷ cs) = (c ≢ []) × NonEmpty cs

abbrev pub join : List (List ℕ) → List ℕ
join [] = []
join (c ∷ cs) = c ++ join cs

-- What a pipe gives up to its end is collected whole, in order, and nothing behind the end.
read_output-join : (cs rest : List (List ℕ)) → NonEmpty cs → read_output (cs ++ [] ∷ rest) ≡ join cs
unfolding read_output
read_output-join [] rest h = refl
read_output-join ([] ∷ cs) rest h = absurd (h.0 refl)
read_output-join ((b ∷ c) ∷ cs) rest h = ap (λ l. (b ∷ c) ++ l) (read_output-join cs rest h.1)

-- What was captured of the chunks of a pipe.
abbrev pub gathered : Bool → List (List ℕ) → Option (List ℕ)
gathered capture cs = if capture then some (join cs) else none

-- What each end of `run_process` says, for a status and the chunks of both pipes up to their ends.
abbrev pub Reports : Request → ℕ → List (List ℕ) → List (List ℕ) → Completed → Type 0
Reports q status out err (completed s o e) =
    (s ≡ status)
    × (o ≡ gathered q.capture_stdout out)
    × (e ≡ gathered q.capture_stderr err)
    × ((status ≡ 0) ⊎ (q.check ≡ false))
Reports q status out err (check_failed (called_process s o e)) =
    (s ≡ status)
    × (o ≡ gathered q.capture_stdout out)
    × (e ≡ gathered q.capture_stderr err)
    × (status ≢ 0)
    × (q.check ≡ true)
Reports q status out err (check_failed type_error) = ⊥
Reports q status out err (check_failed unicode_error) = ⊥
Reports q status out err (check_failed value_error) = ⊥
Reports q status out err (check_failed (os_error n)) = ⊥

output-gathered :
    (capture : Bool) (cs rest : List (List ℕ))
    → NonEmpty cs
    → output capture (cs ++ [] ∷ rest) ≡ gathered capture cs
output-gathered true cs rest h = ap some (read_output-join cs rest h)
output-gathered false cs rest h = refl

-- When both pipes have come to their ends, `run_process` returns the exit status with all that was
-- captured, in order, if the status is 0 or is not checked; otherwise it raises CalledProcessError
-- with the same status and outputs. An output that was not captured is None.
pub complete-Reports :
    (q : Request) (status : ℕ) (out err rest rest' : List (List ℕ))
    → NonEmpty out
    → NonEmpty err
    → Reports q status out err (complete q status (out ++ [] ∷ rest) (err ++ [] ∷ rest'))
unfolding complete
complete-Reports q status out err rest rest' h k =
    let o = output-gathered q.capture_stdout out rest h in
    let e = output-gathered q.capture_stderr err rest' k in
    elim (Bool-cases (not (status == 0) && q.check)) [
      | inl c ↦ rw c (refl, o, e, ground (arith, c), ground (arith, c))
      | inr c ↦ rw c (refl, o, e, unchecked (Bool-cases q.check) c)
    ]
  where
    unchecked :
        (q.check ≡ true) ⊎ (q.check ≡ false)
        → not (status == 0) && q.check ≡ false
        → (status ≡ 0) ⊎ (q.check ≡ false)
    unchecked (inl t) c = inl (ground (arith, t, c))
    unchecked (inr f) c = inr f
