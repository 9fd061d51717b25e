-- ===== src/Sync/Unbounded/Samples.antt =====
-- Two receivers that wait while the only sending end is dropped.
use tonio.Prelude.{◌≡◌, refl, true, some, List, [], ◌∷◌, get_elem?, inl}
use tonio.Sync.Waiters.{idle}
use tonio.Sync.Unbounded.{Move, receives, drops_tx, drains, new, start, step, run}
use tonio.Sync.Unbounded.Closing.{end_wakes}

abbrev moves : List Move
moves = receives 0 ∷ receives 1 ∷ drops_tx ∷ drains ∷ []

end_wakes_example :
    let s = run (start 1 2) moves in
    (s.channel.closed ≡ true)
    × (s.events.flag 1 ≡ true)
    × (get_elem? (step s (receives 1)).tasks 1 ≡ some idle)
unfolding run start new
end_wakes_example = end_wakes 1 2 1 1 moves refl (inl refl) refl
