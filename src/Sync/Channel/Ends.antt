-- ===== src/Sync/Channel/Ends.antt =====
-- The ends of the bounded channel: `tx` and `rx` of Channel in src/sync.rs, whose last drop closes it.
mod Samples
pub mod Wakes
pub mod Closing
pub mod Stranding
use tonio.Prelude.{ℕ, ◌+◌, ◌-◌, List, [], ◌∷◌, ◌==◌, if◌then◌else◌}
use tonio.Sync.Channel.{System, closes, start, step}
use tonio.Sync.Channel as Channel

-- The channel's system with the counts of its senders and receivers.
pub record Ends : Type 0 where
  pub system : System
  pub tx : ℕ
  pub rx : ℕ

-- `channel`: one end of each kind, and a number of tasks that receive.
unfoldable pub channel : ℕ → ℕ → Ends
channel size k = record { system = start size k; tx = 1; rx = 1 }

-- `if self.tx.fetch_sub(1) == 1 { self.close() }`, for the count before.
pub close_last : ℕ → System → System
close_last n s = if n == 1 then step s closes else s

pub data Move : Type 0 where
  -- a move of the tasks that use the channel
  uses : Channel.Move → Move
  adds_tx adds_rx drops_tx drops_rx : Move

unfoldable pub end_step : Ends → Move → Ends
unfolding close_last
end_step s (uses m) = record s { system = step s.system m }
end_step s adds_tx = record s { tx = s.tx + 1 }
end_step s adds_rx = record s { rx = s.rx + 1 }
end_step s drops_tx = record s { system = close_last s.tx s.system; tx = s.tx - 1 }
end_step s drops_rx = record s { system = close_last s.rx s.system; rx = s.rx - 1 }

unfoldable pub end_run : Ends → List Move → Ends
unfolding end_step
end_run s [] = s
end_run s (m ∷ ms) = end_run (end_step s m) ms
