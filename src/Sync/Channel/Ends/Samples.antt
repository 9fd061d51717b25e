-- ===== src/Sync/Channel/Ends/Samples.antt =====
-- A channel of size 1, which one message fills.
use tonio.Prelude.{◌≡◌, refl, true, false, [], ◌∷◌}
use tonio.Sync.Channel.{sends, start, step}
use tonio.Sync.Channel.Ends.{Ends, uses, drops_tx, drops_rx, channel, end_step, end_run}
use tonio.Sync.Channel.Ends.Stranding.{send_strands}

abbrev full : Ends
full = end_run (channel 1 1) (uses (sends 7) ∷ [])

send_strands_example :
    let s = end_run (end_step (end_step full (uses (sends 8))) drops_rx) (drops_tx ∷ []) in
    (s.system.channel.closed ≡ true) × (s.system.events.flag full.system.events.made ≡ false)
unfolding end_run channel start step
send_strands_example = send_strands full 8 (drops_tx ∷ []) refl refl refl refl refl
