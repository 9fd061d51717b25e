-- ===== src/Net/Hilvl/Serving.antt =====
-- The task that `serve_listeners` of tonio/_net/_hilvl.py runs for each listener.
use tonio.Prelude.{
  ℕ, suc, ◌≡◌, refl, ap, Bool, true, false, List, [], ◌∷◌, ◌++◌, inl, inr, Bool-cases,
  if◌then◌else◌,
}

-- How `listener.accept()` ends: a stream, an OSError with its number, or another exception.
pub data Accepted : Type 0 where
  stream : ℕ → Accepted
  os_error : ℕ → Accepted
  other_error : ℕ → Accepted

pub data Outcome : Type 0 where
  serving : Outcome
  raised : Accepted → Outcome

-- The streams whose handler was spawned, in order, the sleeps, and the closes of the listener.
pub record Served : Type 0 where
  pub outcome : Outcome
  pub handled : List ℕ
  pub sleeps : ℕ
  pub closes : ℕ

-- `with listener:` and the loop in it, over the error numbers that are tried again.
unfoldable pub serve : (ℕ → Bool) → List Accepted → Served
serve retried [] = record { outcome = serving; handled = []; sleeps = 0; closes = 0 }
serve retried (stream s ∷ answers) =
    let rest = serve retried answers in record rest { handled = s ∷ rest.handled }
serve retried (os_error e ∷ answers) =
    let rest = serve retried answers in
    if retried e
    then record rest { sleeps = suc rest.sleeps }
    else record { outcome = raised (os_error e); handled = []; sleeps = 0; closes = 1 }
serve retried (other_error e ∷ answers) = record {
  outcome = raised (other_error e);
  handled = [];
  sleeps = 0;
  closes = 1;
}

-- `serve_listeners`: one task for each listener.
pub serve_listeners : (ℕ → Bool) → List (List Accepted) → List Served
unfolding serve
serve_listeners retried [] = []
serve_listeners retried (answers ∷ ls) = serve retried answers ∷ serve_listeners retried ls

-- Streams and errors that are tried again only, and the streams among them.
abbrev pub Survives : (ℕ → Bool) → List Accepted → Type 0
Survives retried [] = Unit
Survives retried (stream s ∷ xs) = Survives retried xs
Survives retried (os_error e ∷ xs) = (retried e ≡ true) × Survives retried xs
Survives retried (other_error e ∷ xs) = ⊥

abbrev pub streams : List Accepted → List ℕ
streams [] = []
streams (stream s ∷ xs) = s ∷ streams xs
streams (os_error e ∷ xs) = streams xs
streams (other_error e ∷ xs) = streams xs

abbrev pub Fatal : (ℕ → Bool) → Accepted → Type 0
Fatal retried (stream s) = ⊥
Fatal retried (os_error e) = retried e ≡ false
Fatal retried (other_error e) = Unit

-- What a served listener has done with its answers.
abbrev pub Explains : (ℕ → Bool) → List Accepted → Outcome → List ℕ → ℕ → Type 0
Explains retried answers serving handled closes =
    Survives retried answers × (handled ≡ streams answers) × (closes ≡ 0)
Explains retried answers (raised x) handled closes =
    (xs : List Accepted) × (ys : List Accepted) × (answers ≡ xs ++ x ∷ ys)
    × Survives retried xs
    × Fatal retried x
    × (handled ≡ streams xs)
    × (closes ≡ 1)

after_stream :
    (retried : ℕ → Bool) (s : ℕ) (answers : List Accepted) (o : Outcome) (handled : List ℕ) (n : ℕ)
    → Explains retried answers o handled n
    → Explains retried (stream s ∷ answers) o (s ∷ handled) n
after_stream retried s answers serving handled n (v, h, c) = (v, ap (◌∷◌ s) h, c)
after_stream retried s answers (raised x) handled n (xs, ys, a, v, f, h, c) =
    (stream s ∷ xs, ys, ap (◌∷◌ (stream s)) a, v, f, ap (◌∷◌ s) h, c)

after_retry :
    (retried : ℕ → Bool) (e : ℕ) (answers : List Accepted) (o : Outcome) (handled : List ℕ) (n : ℕ)
    → retried e ≡ true
    → Explains retried answers o handled n
    → Explains retried (os_error e ∷ answers) o handled n
after_retry retried e answers serving handled n k (v, h, c) = ((k, v), h, c)
after_retry retried e answers (raised x) handled n k (xs, ys, a, v, f, h, c) =
    (os_error e ∷ xs, ys, ap (◌∷◌ (os_error e)) a, (k, v), f, h, c)

-- A listener's task spawns a handler for each stream that is accepted, in order, and passes over the
-- errors to be tried again; at the first other error it raises that error, with all streams before it
-- handled and the listener closed once; without one, it goes on serving with the listener open.
pub serve_result :
    (retried : ℕ → Bool) (answers : List Accepted)
    → let r = serve retried answers in Explains retried answers r.outcome r.handled r.closes
unfolding serve
serve_result retried [] = (tt, refl, refl)
serve_result retried (stream s ∷ answers) =
    let r = serve retried answers in
    after_stream retried s answers r.outcome r.handled r.closes (serve_result retried answers)
serve_result retried (other_error e ∷ answers) = ([], answers, refl, tt, tt, refl, refl)
serve_result retried (os_error e ∷ answers) = elim (Bool-cases (retried e)) [
  | inl k ↦
      let r = serve retried answers in
      rw k (
        after_retry retried e answers r.outcome r.handled r.closes k (serve_result retried answers))
  | inr k ↦ rw k ([], answers, refl, tt, k, refl, refl)
]
