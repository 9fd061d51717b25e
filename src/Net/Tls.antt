-- ===== src/Net/Tls.antt =====
-- TLSStream of tonio/_net/_tls.py over TLSStream of src/net/tls.rs. What the ssl object answers is a
-- list of steps, each a call of `_SSLProxy._step`; the transport is a parameter. Here one task at a time
-- uses the stream, so the two locks are free when they are taken; Net.Tls.Sharing and Net.Tls.Receiving
-- have several.
mod Samples
pub mod Bytes
pub mod Sharing
pub mod Receiving
pub mod Closing
pub mod Handshake
use tonio.Prelude.{
  ℕ, suc, ◌+◌, Bool, true, false, not, ◌&&◌, ◌||◌, Option, none, some, List, [], ◌∷◌, ◌++◌, length,
  max, ◌==◌, if◌then◌else◌,
}

-- TLSStreamState
pub data State : Type 0 where
  init handshaking ready broken closed : State

-- One call of the ssl object through `_step`: the value, or SSLWantReadError, with what stands in the
-- egress buffer then; or an SSLError, which may be an unexpected end of file.
pub data Step (V : Type 0) : Type 0 where
  gives : V → List ℕ → Step V
  wants_read : List ℕ → Step V
  ssl_error : Bool → Step V

pub data Error : Type 0 where
  -- ResourceBroken, from an unexpected end of file or not
  resource_broken : Bool → Error
  -- RuntimeError: the stream is in a bad state
  bad_state : Error
  -- what the transport raised
  transport_error : ℕ → Error

-- `pending` waits for the next step of the ssl object.
pub data Outcome (V : Type 0) : Type 0 where
  done : V → Outcome V
  raised : Error → Outcome V
  pending : Outcome V

-- `ingress` is what was written to the ingress buffer, and `sent` what was given to the transport,
-- since the start; `closes` counts the calls of `transport.close`.
pub record Stream : Type 0 where
  pub state : State
  pub compat_https : Bool
  pub server_side : Bool
  pub tls13 : Bool
  pub egress_stack : List ℕ
  pub recv_count : ℕ
  pub recv_est_size : ℕ
  pub ingress : List ℕ
  pub ingress_eof : Bool
  pub sent : List ℕ
  pub closes : ℕ

abbrev pub is_ready : State → Bool
is_ready ready = true
is_ready _ = false

-- _handshake_pre, _handshake_post, _check_ready: `none` is RuntimeError.
unfoldable pub handshake_pre : Stream → Option Stream
handshake_pre t = elim t.state [ init ↦ some (record t { state = handshaking }) | _ ↦ none ]

unfoldable pub handshake_post : Stream → Option Stream
handshake_post t = elim t.state [ handshaking ↦ some (record t { state = ready }) | _ ↦ none ]

abbrev pub set_broken : Stream → Stream
set_broken t = record t { state = broken }

abbrev pub set_closed : Stream → Stream
set_closed t = record t { state = closed }

abbrev pub close_transport : Stream → Stream
close_transport t = record t { closes = suc t.closes }

-- What the transport answers: data, empty at the end of the stream, or an error.
pub data Received : Type 0 where
  chunk : List ℕ → Received
  recv_fails : ℕ → Received

-- The transport, over a state of its own.
pub record Transport (W : Type 0) : Type 0 where
  pub send_all : List ℕ → W → Option ℕ × W
  pub receive_some : W → Received × W

module _ {W : Type 0} (transport : Transport W) where
  -- `_recv` under its lock, where `count` is `_recv_count` as it was before the lock was taken.
  pub recv_chunk : Received → Stream → Outcome (Unit {0}) × Stream
  recv_chunk (chunk []) t =
      (done tt, record t { ingress_eof = true; recv_count = suc t.recv_count })
  recv_chunk (chunk (b ∷ data')) t = (
    done tt,
    record t {
      recv_est_size = max t.recv_est_size (length (b ∷ data'));
      ingress = t.ingress ++ b ∷ data';
      recv_count = suc t.recv_count;
    },
  )
  recv_chunk (recv_fails e) t = (raised (transport_error e), t)

  pub recv : ℕ → Stream → W → Outcome (Unit {0}) × Stream × W
  unfolding recv_chunk
  recv count t w =
      let (r, w') = transport.receive_some w in
      let (o, t') = recv_chunk r t in if count == t.recv_count then (o, t', w') else (done tt, t, w)

  sent_or_broken : Option ℕ → Stream → Outcome (Unit {0}) × Stream
  sent_or_broken none t = (done tt, t)
  sent_or_broken (some e) t = (raised (transport_error e), set_broken t)

  -- `_send`: the stacked egress goes out with the data.
  pub send : List ℕ → Stream → W → Outcome (Unit {0}) × Stream × W
  unfolding sent_or_broken
  send data' t w =
      let out = t.egress_stack ++ data' in
      let (r, w') = transport.send_all out w in
      let (o, t') = sent_or_broken r (record t { egress_stack = []; sent = t.sent ++ out }) in
      (o, t', w')

  -- `if to_send: … elif want_read: …`
  pub exchange : List ℕ → Bool → Stream → W → Outcome (Unit {0}) × Stream × W
  unfolding send recv
  exchange [] false t w = (done tt, t, w)
  exchange [] true t w = recv t.recv_count t w
  exchange (b ∷ out) want t w = send (b ∷ out) t w

  module _ {V : Type 0} where
    -- What follows an exchange that went well; its error is the method's.
    abbrev after :
        Outcome (Unit {0}) × Stream × W
        → (Stream → W → Outcome V × Stream × W)
        → Outcome V × Stream × W
    after (done u, t, w) next = next t w
    after (raised e, t, w) next = (raised e, t, w)
    after (pending, t, w) next = (pending, t, w)

    -- `_ssl_dance`
    pub dance : List (Step V) → Stream → W → Outcome V × Stream × W
    unfolding exchange
    dance [] t w = (pending, t, w)
    dance (ssl_error eof ∷ steps) t w = (raised (resource_broken eof), set_broken t, w)
    dance (gives v out ∷ steps) t w = after (exchange out false t w) (λ t' w'. (done v, t', w'))
    dance (wants_read out ∷ steps) t w = after (exchange out true t w) (λ t' w'. dance steps t' w')

    -- `send_all` of data that is not empty, and the heart of `receive_some`.
    pub checked_dance : List (Step V) → Stream → W → Outcome V × Stream × W
    unfolding dance
    checked_dance steps t w =
        let r = dance steps t w in if is_ready t.state then r else (raised bad_state, t, w)

  -- `send_all`
  pub send_all : List ℕ → List (Step (Unit {0})) → Stream → W → Outcome (Unit {0}) × Stream × W
  unfolding checked_dance
  send_all [] steps t w = if is_ready t.state then (done tt, t, w) else (raised bad_state, t, w)
  send_all (b ∷ data') steps t w = checked_dance steps t w

  -- An end of file without a closing alert is an end of file for https.
  or_eof : Bool → Outcome (List ℕ) → Outcome (List ℕ)
  or_eof true (raised (resource_broken true)) = done []
  or_eof _ o = o

  -- `receive_some`; the size that it asks for is `receive_size`.
  pub receive_some : List (Step (List ℕ)) → Stream → W → Outcome (List ℕ) × Stream × W
  unfolding checked_dance or_eof
  receive_some steps t w =
      let (o, t', w') = checked_dance steps t w in (or_eof t.compat_https o, t', w')

  or_bad_state : Option Stream → W → Stream → Outcome (Unit {0}) × Stream × W
  or_bad_state (some t) w old = (done tt, t, w)
  or_bad_state none w old = (raised bad_state, old, w)

  -- The loop of `handshake`, and `_handshake_post`. A TLS 1.3 server keeps its last flight back.
  handshake_loop : List (Step (Unit {0})) → Stream → W → Outcome (Unit {0}) × Stream × W
  unfolding exchange handshake_post or_bad_state
  handshake_loop [] t w = (pending, t, w)
  handshake_loop (ssl_error eof ∷ steps) t w = (raised (resource_broken eof), set_broken t, w)
  handshake_loop (gives u out ∷ steps) t w =
      if t.server_side && t.tls13
      then (let t' = record t { egress_stack = t.egress_stack ++ out } in
          or_bad_state (handshake_post t') w t')
      else after (exchange out false t w) (λ t' w'. or_bad_state (handshake_post t') w' t')
  handshake_loop (wants_read out ∷ steps) t w =
      after (exchange out true t w) (λ t' w'. handshake_loop steps t' w')

  from_pre : Option Stream → List (Step (Unit {0})) → Stream → W → Outcome (Unit {0}) × Stream × W
  unfolding handshake_loop
  from_pre none steps t w = (raised bad_state, t, w)
  from_pre (some t') steps t w = handshake_loop steps t' w

  pub handshake : List (Step (Unit {0})) → Stream → W → Outcome (Unit {0}) × Stream × W
  unfolding from_pre handshake_pre
  handshake steps t w = from_pre (handshake_pre t) steps t w

  -- `with suppress(ResourceBroken)` round the closing alert, and `finally: transport.close()`.
  unwrap : Step (Unit {0}) → Stream → W → Outcome (Unit {0}) × Stream × W
  unfolding exchange
  unwrap (ssl_error eof) t w = (done tt, set_broken t, w)
  unwrap (wants_read out) t w = exchange out false t w
  unwrap (gives u out) t w = exchange out false t w

  -- `close`: the state is set to closed before it is compared with broken.
  pub close_from : State → Step (Unit {0}) → Stream → W → Outcome (Unit {0}) × Stream × W
  unfolding unwrap
  close_from closed step t w = (done tt, t, w)
  close_from _ step t w =
      let t₁ = set_closed t in
      let (o, t₂, w') = unwrap step t₁ w in
      if t.compat_https then (done tt, close_transport t₁, w) else (o, close_transport t₂, w')

  pub close : Step (Unit {0}) → Stream → W → Outcome (Unit {0}) × Stream × W
  unfolding close_from
  close step t w = close_from t.state step t w

-- The size that `receive_some` asks for.
pub receive_size : Option ℕ → Stream → ℕ → ℕ
receive_size none t ingress_pending = max t.recv_est_size ingress_pending
receive_size (some n) t ingress_pending = n

-- `__exit__`, which compares before it closes.
pub exit : Stream → Outcome (Unit {0}) × Stream
exit t = elim t.state [
  | closed ↦ (done tt, t)
  | broken ↦ (done tt, close_transport (set_closed t))
  | _ ↦ if t.compat_https then (done tt, close_transport (set_closed t)) else (raised bad_state, t)
]
