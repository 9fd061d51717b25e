-- ===== src/Ctl/Select/Samples.antt =====
-- Four coroutines: the second ends first, and another before the caller is resumed.
use tonio.Prelude.{
  ℕ, ◌≡◌, refl, true, some, List, [], ◌∷◌, ◌++◌, count, elem, upto, ltb, one_if, if◌then◌else◌,
}
use tonio.Ctl.Spawn.{Outcome, returned, raised, escaped}
use tonio.Ctl.Select.Awaited.{select_awaited, awaited_agrees}
use tonio.Ctl.Select.{store, value, error, pending, Hop, stores, closes, gives, unpack, select}
use tonio.Ctl.Select.Choosing.{last_result, closed, select_result, select_aborts}

abbrev outs : List (Outcome ℕ ℕ)
outs = returned 10 ∷ returned 20 ∷ raised 3 ∷ escaped ∷ []

-- The second has ended, and the third has not set its event in the scope yet.
abbrev third : List Hop
third = closes 1 ∷ stores 2 ∷ []

-- The fourth ends in CancelledError.
abbrev fourth : List Hop
fourth = closes 1 ∷ stores 3 ∷ []

select_result_example :
    ((select outs []).0 ≡ pending)
    × ((select outs (stores 1 ∷ third)).0 ≡ unpack (last_result outs (stores 1 ∷ third)))
select_result_example = select_result outs 1 third

select_aborts_example :
    ((select outs (stores 1 ∷ third)).1.0 ≡ some (upto 4))
    × (count 2 (select outs (stores 1 ∷ third)).1.1.aborted
        ≡ (if elem 2 (closed third) then 0 else one_if (ltb 2 4)))
    × (ltb 2 4 ≡ true → (select outs (stores 1 ∷ third)).1.1.events.flag 2 ≡ true)
unfolding store
select_aborts_example = select_aborts outs 1 third (error 3) 2 refl

-- The one that ends in CancelledError is passed over.
twenty : (select outs (stores 1 ∷ fourth)).0 ≡ gives 20
unfolding select
twenty = refl

awaited_agrees_example :
    let r = select_awaited outs (stores 1 ∷ fourth) (closes 3 ∷ []) in
    (r.0 ≡ (select outs (stores 1 ∷ fourth)).0)
    × (r.1 ≡ (select outs (stores 1 ∷ (fourth ++ closes 3 ∷ []))).1)
unfolding store
awaited_agrees_example = awaited_agrees outs 1 fourth (closes 3 ∷ []) (value 20) refl
