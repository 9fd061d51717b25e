-- ===== src/Net/Tls/Closing.antt =====
-- `close` of a TLSStream, on every state of the stream.
use tonio.Prelude.{
  ℕ, suc, ◌≡◌, refl, ap, Bool, false, Option, none, some, List, [], ◌∷◌, ◌++◌, inl, inr, Bool-cases,
}
use tonio.Net.Tls.{
  State, ready, broken, closed, Step, gives, wants_read, ssl_error, Stream, Transport, send,
  exchange, sent_or_broken, unwrap, close_from, close,
}

sent_or_broken-closes :
    {W : Type 0} (transport : Transport W) (r : Option ℕ) (t : Stream)
    → (sent_or_broken transport r t).1.closes ≡ t.closes
unfolding sent_or_broken
sent_or_broken-closes transport none t = refl
sent_or_broken-closes transport (some e) t = refl

written-closes :
    {W : Type 0} (transport : Transport W) (out : List ℕ) (t : Stream) (w : W)
    → (exchange transport out false t w).1.closes ≡ t.closes
unfolding exchange send
written-closes transport [] t w = refl
written-closes transport (b ∷ out) t w =
    sent_or_broken-closes transport (transport.send_all (t.egress_stack ++ b ∷ out) w).0 _

unwrap-closes :
    {W : Type 0} (transport : Transport W) (step : Step (Unit {0})) (t : Stream) (w : W)
    → (unwrap transport step t w).1.closes ≡ t.closes
unfolding unwrap
unwrap-closes transport (ssl_error eof) t w = refl
unwrap-closes transport (wants_read out) t w = written-closes transport out t w
unwrap-closes transport (gives u out) t w = written-closes transport out t w

-- The count of calls of `transport.close` after a `close` in this state.
abbrev pub closed_once : State → ℕ → ℕ
closed_once closed n = n
closed_once _ n = suc n

close_from-closes :
    {W : Type 0} (transport : Transport W) (s : State) (step : Step (Unit {0})) (t : Stream) (w : W)
    → (close_from transport s step t w).1.closes ≡ closed_once s t.closes
unfolding close_from
close_from-closes transport closed step t w = refl
close_from-closes transport s step t w = elim (Bool-cases t.compat_https) [
  | inl h ↦ rw h refl
  | inr h ↦ rw h (ap suc (unwrap-closes transport step _ w))
]

-- `close` closes the transport exactly once, whatever the closing alert comes to and also when the
-- transport refuses it, unless the stream is closed, where it closes nothing.
pub close_once :
    {W : Type 0} (transport : Transport W) (step : Step (Unit {0})) (t : Stream) (w : W)
    → (close transport step t w).1.closes ≡ closed_once t.state t.closes
unfolding close
close_once transport step t w = close_from-closes transport t.state step t w

-- A broken stream that is not https compatible still goes through the closing alert: `close` does
-- with it exactly what it does with the same stream in the ready state.
pub close_unwraps_broken :
    {W : Type 0} (transport : Transport W) (step : Step (Unit {0})) (t : Stream) (w : W)
    → t.state ≡ broken
    → close transport step t w ≡ close transport step (record t { state = ready }) w
unfolding close close_from
close_unwraps_broken transport step t w h = rw h refl

-- When the closing alert of a ready stream that is not https compatible fails, `close` leaves the
-- stream broken and not closed, and a second `close` closes the transport again.
pub close_repeats :
    {W : Type 0} (transport : Transport W) (eof : Bool) (step : Step (Unit {0})) (t : Stream)
    (w : W)
    → t.state ≡ ready
    → t.compat_https ≡ false
    → ((close transport (ssl_error eof) t w).1.state ≡ broken)
      × ((close transport step (close transport (ssl_error eof) t w).1 w).1.closes
          ≡ suc (suc t.closes))
unfolding close close_from
close_repeats transport eof step t w h k =
    rw (h, k) (refl, ap suc (unwrap-closes transport step _ w))
