-- ===== src/Colored/Completed/Yielding.antt =====
-- What `async for` over `as_completed` is given.
use tonio.Prelude.{
  ℕ, zero, suc, ◌-◌, ◌≤◌, ◌≡◌, refl, ap, ◌∙◌, some, List, [], ◌∷◌, ◌++◌, map, length, replicate,
}
use tonio.Ctl.Spawn.{Outcome}
use tonio.Ctl.Completed.Handing.{values, fulls, empty, targets-run}
use tonio.Colored.Completed.{yielded, as_completed}

module _ {V : Type 0} where
  yielded-fulls : (vs : List V) (m : ℕ) → yielded (fulls vs ++ replicate m empty) ≡ map some vs
  unfolding yielded fulls
  yielded-fulls [] zero = refl
  yielded-fulls [] (suc m) = refl
  yielded-fulls (v ∷ vs) m = ap (◌∷◌ (some v)) (yielded-fulls vs m)

module _ {V E : Type 0} where
  -- Of `n` coroutines, those of the list have ended, in this order: the generator has given the values of
  -- those that returned, in this order, and no other value.
  pub as_completed-values :
      (n : ℕ) (outs : List (Outcome V E))
      → length outs ≤ n
      → as_completed n outs ≡ map some (values outs)
  unfolding as_completed
  as_completed-values n outs h =
      ap yielded (targets-run n outs h) ∙ yielded-fulls (values outs) (n - length (values outs))
