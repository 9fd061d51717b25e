-- ===== src/Ctl/Completed.antt =====
-- `as_completed` of tonio/_ctl.py: each coroutine that returns takes the next of the targets, which
-- the caller is given in this order.
mod Samples
pub mod Handing
use tonio.Prelude.{
  ℕ, zero, suc, Bool, true, false, Option, none, some, List, [], ◌∷◌, ◌++◌, set, get_elem?, length,
  replicate, map, upto, if◌then◌else◌,
}
use tonio.Ctl.Spawn.{Outcome, returned, raised, escaped}

-- A target: its event's flag, and its result.
pub record Target (V : Type 0) : Type 0 where
  pub event : Bool
  pub res : Option V

-- `glues` has the numbers of the targets, last first.
pub record Completed (V : Type 0) : Type 0 where
  pub targets : List (Target V)
  pub glues : List ℕ

-- What `loader` gives for one target: nothing yet, or the fetched result.
pub data Loaded (V : Type 0) : Type 0 where
  pending absent : Loaded V
  loaded : Option V → Loaded V

abbrev reverse {ℓ} : {A : Type ℓ} → List A → List A
reverse [] = []
reverse (x ∷ xs) = reverse xs ++ x ∷ []

-- `list.pop()`: the last element, and what is left; nothing is IndexError.
pub pop {ℓ} : {A : Type ℓ} → List A → Option (A × List A)
pop [] = none
pop (x ∷ []) = some (x, [])
pop (x ∷ y ∷ r) = elim (pop (y ∷ r)) [ some (z, l) ↦ some (z, x ∷ l) | none ↦ none ]

module _ {V : Type 0} where
  pub started : ℕ → Completed V
  started n = record {
    targets = replicate n (record { event = false; res = none });
    glues = reverse (upto n);
  }

  -- The end of `wrapper`, behind `ret = yield coro`.
  pub hand : V → Option (ℕ × List ℕ) → Completed V → Completed V
  hand v none s = s
  hand v (some (i, g)) s = record {
    targets = set s.targets i (record { event = true; res = some v });
    glues = g;
  }

  pub load : Option (Target V) → Loaded V
  load none = absent
  load (some t) = if t.event then loaded t.res else pending

  -- The caller's loader for target `k`.
  unfoldable pub loader : ℕ → Completed V → Loaded V
  unfolding load
  loader k s = load (get_elem? s.targets k)

module _ {V E : Type 0} where
  -- A coroutine that raises takes no target.
  pub finish : Outcome V E → Completed V → Completed V
  unfolding hand pop
  finish (returned v) s = hand v (pop s.glues) s
  finish (raised e) s = s
  finish escaped s = s

  -- The coroutines end in the order of the list.
  unfoldable pub run : List (Outcome V E) → Completed V → Completed V
  unfolding finish
  run [] s = s
  run (o ∷ os) s = run os (finish o s)
