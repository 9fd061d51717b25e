-- ===== src/Sync/Channel/Wakeups.antt =====
-- Which receivers a send wakes.
use tonio.Prelude.{ℕ, ◌≡◌, ◌≢◌, false, some, List, [], ◌∷◌, arith, get_elem?, get_elem?-set_ne}
use tonio.Sync.Waiters.{set_event, idle, waiting}
use tonio.Sync.Channel.{System, sends, cancels, send, cancel_from, want_pull, set_if, step}
use tonio.Sync.Channel.Order.{messages}

-- When the receiver that has waited longest is cancelled, its event stays in the deque and takes the
-- wake-up of the next send: on an open, empty channel on which `i` and then `j` wait, cancelling `i`
-- and sending `m` leaves `m` queued and `j` waiting on an event that is not set.
pub cancelled_receiver_strands :
    (s : System) (i j e d m : ℕ) (ws : List ℕ)
    → get_elem? s.tasks i ≡ some (waiting e)
    → get_elem? s.tasks j ≡ some (waiting d)
    → i ≢ j
    → e ≢ d
    → s.channel.waiters ≡ e ∷ d ∷ ws
    → s.channel.queue ≡ []
    → s.channel.closed ≡ false
    → s.events.flag d ≡ false
    → let s' = step (step s (cancels i)) (sends m) in
      (messages s'.channel.queue ≡ m ∷ [])
      × (s'.events.flag d ≡ false)
      × (get_elem? s'.tasks j ≡ some (waiting d))
unfolding step cancel_from send want_pull set_if set_event
cancelled_receiver_strands s i j e d m ws ati atj ne ned hw hq hc hf =
    ground (arith, get_elem?-set_ne s.tasks i j idle ne)
