-- ===== src/Sync/Channel/Ends/Closing.antt =====
-- Whom the last drop of an end of the bounded channel wakes.
use tonio.Prelude.{
  ℕ, ◌-◌, ◌≡◌, ◌⊎◌, inl, inr, refl, true, false, some, List, [], ◌∷◌, arith, get_elem?,
  if◌then◌else◌, ◌==◌,
}
use tonio.Sync.Waiters.{waiting}
use tonio.Sync.Channel.{System, closes, new, start, step}
use tonio.Sync.Channel.Parked.{none_wait}
use tonio.Sync.Channel.Ends.{
  Ends, Move, uses, adds_tx, adds_rx, drops_tx, drops_rx, channel, close_last, end_step, end_run,
}
use tonio.Sync.Channel.Ends.Wakes.{Wakes, close-Wakes, step-Wakes, closed_stays, closes-closed}

-- The invariant of a channel with its ends.
record Sound (s : Ends) : Type 0 where
  wakes : Wakes s.system
  no_tx : s.tx ≡ 0 → s.system.channel.closed ≡ true
  no_rx : s.rx ≡ 0 → s.system.channel.closed ≡ true

last-Wakes : (n : ℕ) (s : System) → Wakes s → Wakes (close_last n s)
unfolding close_last
last-Wakes n s v = elim (n == 1) as (λ b. Wakes (if b then step s closes else s)) [
  | true ↦ close-Wakes s v
  | false ↦ v
]

-- The last end closes the channel, and the others leave it as it is.
pub last-closed :
    (n : ℕ) (s : System) → s.channel.closed ≡ true → (close_last n s).channel.closed ≡ true
unfolding close_last
last-closed n s h = ground (arith, h, closes-closed s)

gone-closed :
    (n : ℕ) (s : System)
    → (n ≡ 0 → s.channel.closed ≡ true)
    → n - 1 ≡ 0
    → (close_last n s).channel.closed ≡ true
unfolding close_last
gone-closed n s h g = ground (arith, h, g, closes-closed s)

end_step-Sound : (s : Ends) (m : Move) → Sound s → Sound (end_step s m)
unfolding end_step
end_step-Sound s (uses m) v = record {
  wakes = step-Wakes s.system m v.wakes;
  no_tx = λ h. closed_stays s.system m (v.no_tx h);
  no_rx = λ h. closed_stays s.system m (v.no_rx h);
}
end_step-Sound s adds_tx v = record {
  wakes = v.wakes;
  no_tx = λ h. absurd (omega arith);
  no_rx = v.no_rx;
}
end_step-Sound s adds_rx v = record {
  wakes = v.wakes;
  no_tx = v.no_tx;
  no_rx = λ h. absurd (omega arith);
}
end_step-Sound s drops_tx v = record {
  wakes = last-Wakes s.tx s.system v.wakes;
  no_tx = gone-closed s.tx s.system v.no_tx;
  no_rx = λ h. last-closed s.tx s.system (v.no_rx h);
}
end_step-Sound s drops_rx v = record {
  wakes = last-Wakes s.rx s.system v.wakes;
  no_tx = λ h. last-closed s.rx s.system (v.no_tx h);
  no_rx = gone-closed s.rx s.system v.no_rx;
}

end_run-Sound : (s : Ends) (ms : List Move) → Sound s → Sound (end_run s ms)
unfolding end_run
end_run-Sound s [] v = v
end_run-Sound s (m ∷ ms) v = end_run-Sound (end_step s m) ms (end_step-Sound s m v)

channel-Sound : (size k : ℕ) → Sound (channel size k)
unfolding channel start new
channel-Sound size k = record {
  wakes = record { parked = λ i e h. absurd (none_wait k i e h); quiet = λ c. refl };
  no_tx = λ h. absurd (omega arith);
  no_rx = λ h. absurd (omega arith);
}

-- After any moves of tasks and ends on a new bounded channel: if no sender or no receiver is left, or the
-- channel was closed, then it is closed, and every receiver that waits has its event set.
pub last_end_wakes :
    (size k i e : ℕ) (ms : List Move)
    → ((end_run (channel size k) ms).tx ≡ 0)
      ⊎ ((end_run (channel size k) ms).rx ≡ 0)
      ⊎ ((end_run (channel size k) ms).system.channel.closed ≡ true)
    → get_elem? (end_run (channel size k) ms).system.tasks i ≡ some (waiting e)
    → let s = end_run (channel size k) ms in
      (s.system.channel.closed ≡ true) × (s.system.events.flag e ≡ true)
last_end_wakes size k i e ms c at =
    let s = end_run (channel size k) ms in
    let v = end_run-Sound (channel size k) ms (channel-Sound size k) in
    let h : s.system.channel.closed ≡ true = elim c [
      | inl t ↦ v.no_tx t
      | inr r ↦ elim r [ inl x ↦ v.no_rx x | inr y ↦ y ]
    ] in
    (h, ground (arith, v.wakes.parked i e at, v.wakes.quiet h))
