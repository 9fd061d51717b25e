-- ===== src/Net/Tls/Handshake.antt =====
-- The states that `handshake` and `send_all` of a TLSStream go through.
use tonio.Prelude.{
  ℕ, ◌≡◌, refl, sym, ap, ◌∙◌, ◌⊎◌, Bool, true, false, ◌&&◌, Option, none, some, List, [], ◌∷◌, ◌++◌,
  inl, inr, Bool-cases, ◌==◌, if◌then◌else◌,
}
use tonio.Net.Tls.{
  State, init, handshaking, ready, Step, gives, wants_read, ssl_error, bad_state, Outcome, done,
  raised, pending, Stream, is_ready, Received, chunk, recv_fails, Transport, recv_chunk, recv, send,
  exchange, after, dance, checked_dance, send_all, sent_or_broken, handshake_pre, handshake_post,
  handshake_loop, or_bad_state, from_pre, handshake,
}
use tonio.Net.Tls.Bytes.{
  wire, emitted, Delivers, append_assoc, exchange-wire, after-cases, dance_result,
}

send-state :
    {W : Type 0} (transport : Transport W) (out : List ℕ) (t : Stream) (w : W)
    → (send transport out t w).0 ≡ done tt
    → (send transport out t w).1.state ≡ t.state
unfolding send sent_or_broken
send-state transport out t w e = sent-state (transport.send_all (t.egress_stack ++ out) w).0 _ e
  where
    sent-state :
        (r : Option ℕ) (t : Stream)
        → (sent_or_broken transport r t).0 ≡ done tt
        → (sent_or_broken transport r t).1.state ≡ t.state
    sent-state none t e = refl
    sent-state (some x) t e = absurd (cc e)

recv-state :
    {W : Type 0} (transport : Transport W) (n : ℕ) (t : Stream) (w : W)
    → (recv transport n t w).1.state ≡ t.state
unfolding recv recv_chunk
recv-state transport n t w = elim (Bool-cases (n == t.recv_count)) [
  | inl h ↦ rw h (chunk-state (transport.receive_some w).0)
  | inr h ↦ rw h refl
]
  where
    chunk-state : (r : Received) → (recv_chunk transport r t).1.state ≡ t.state
    chunk-state (chunk []) = refl
    chunk-state (chunk (b ∷ bs)) = refl
    chunk-state (recv_fails e) = refl

exchange-state :
    {W : Type 0} (transport : Transport W) (out : List ℕ) (want : Bool) (t : Stream) (w : W)
    → (exchange transport out want t w).0 ≡ done tt
    → (exchange transport out want t w).1.state ≡ t.state
unfolding exchange
exchange-state transport [] false t w e = refl
exchange-state transport [] true t w e = recv-state transport t.recv_count t w
exchange-state transport (b ∷ out) want t w e = send-state transport (b ∷ out) t w e

-- The result is a value only if the exchange went well.
after-done :
    {W V : Type 0} (transport : Transport W) (r : Outcome (Unit {0}) × Stream × W)
    (next : Stream → W → Outcome V × Stream × W) (v : V)
    → (after transport r next).0 ≡ done v
    → r.0 ≡ done tt
after-done transport (done u, t, w) next v e = refl
after-done transport (raised x, t, w) next v e = absurd (cc e)
after-done transport (pending, t, w) next v e = absurd (cc e)

handshake_post-done :
    {W : Type 0} (transport : Transport W) (t : Stream) (w : W)
    → t.state ≡ handshaking
    → or_bad_state transport (handshake_post t) w t ≡ (done tt, record t { state = ready }, w)
unfolding or_bad_state handshake_post
handshake_post-done transport t w h = rw h refl

pub record Done {W : Type 0} (steps : List (Step (Unit {0}))) (t : Stream)
    (r : Outcome (Unit {0}) × Stream × W) : Type 0 where
  pub ready_now : r.1.state ≡ ready
  pub delivered : Delivers tt steps
  pub conserved : wire r.1 ≡ wire t ++ emitted steps

-- The step that ends the handshake, with its output kept back or sent.
flight-Done :
    {W : Type 0} (transport : Transport W) (kept : Bool) (u : Unit {0}) (out : List ℕ)
    (steps : List (Step (Unit {0}))) (t : Stream) (w : W)
    → let t' = record t { egress_stack = t.egress_stack ++ out } in
      let r =
        if kept
        then or_bad_state transport (handshake_post t') w t'
        else after transport
            (exchange transport out false t w)
            (λ t' w'. or_bad_state transport (handshake_post t') w' t') in
      t.state ≡ handshaking → r.0 ≡ done tt → Done (gives u out ∷ steps) t r
flight-Done transport true u out steps t w h e =
    rw (handshake_post-done transport (record t { egress_stack = t.egress_stack ++ out }) w h)
      (record {
        ready_now = refl;
        delivered = refl;
        conserved = sym (append_assoc t.sent t.egress_stack out);
      })
flight-Done transport false u out steps t w h e =
    let r = exchange transport out false t w in
    let a = after-cases transport r _ tt e in
    let s = exchange-state transport out false t w (after-done transport r _ tt e) in
    let p = handshake_post-done transport r.1 r.2 (s ∙ h) in
    record {
      ready_now = ap (λ p. p.1.state) (a ∙ p);
      delivered = refl;
      conserved = ap (λ p. wire p.1) (a ∙ p) ∙ exchange-wire transport out false t w;
    }

handshake_loop-Done :
    {W : Type 0} (transport : Transport W) (steps : List (Step (Unit {0}))) (t : Stream) (w : W)
    → t.state ≡ handshaking
    → (handshake_loop transport steps t w).0 ≡ done tt
    → Done steps t (handshake_loop transport steps t w)
unfolding handshake_loop
handshake_loop-Done transport [] t w h e = absurd (cc e)
handshake_loop-Done transport (ssl_error eof ∷ steps) t w h e = absurd (cc e)
handshake_loop-Done transport (gives u out ∷ steps) t w h e =
    flight-Done transport (t.server_side && t.tls13) u out steps t w h e
handshake_loop-Done transport (wants_read out ∷ steps) t w h e =
    let r = exchange transport out true t w in
    let a = after-cases transport r _ tt e in
    let s = exchange-state transport out true t w (after-done transport r _ tt e) in
    let i = handshake_loop-Done transport steps r.1 r.2 (s ∙ h) (sym (ap (λ p. p.0) a) ∙ e) in
    record {
      ready_now = ap (λ p. p.1.state) a ∙ i.ready_now;
      delivered = i.delivered;
      conserved =
          ap (λ p. wire p.1) a
          ∙ i.conserved
          ∙ ap (λ l. l ++ emitted steps) (exchange-wire transport out true t w)
          ∙ append_assoc (wire t) out (emitted steps);
    }

handshake_pre-cases :
    (t : Stream) (s : State)
    → t.state ≡ s
    → ((t.state ≡ init) × (handshake_pre t ≡ some (record t { state = handshaking })))
      ⊎ (handshake_pre t ≡ none)
unfolding handshake_pre
handshake_pre-cases t init h = inl (h, rw h refl)
handshake_pre-cases t s h = inr (rw h refl)

-- When `handshake` returns without an error, the stream was in its initial state and is ready now,
-- the ssl object finished after steps that only wanted more input, and all that it wrote was given to
-- the transport in order or stands in the egress stack.
pub handshake_result :
    {W : Type 0} (transport : Transport W) (steps : List (Step (Unit {0}))) (t : Stream) (w : W)
    → (handshake transport steps t w).0 ≡ done tt
    → (t.state ≡ init) × Done steps t (handshake transport steps t w)
unfolding handshake from_pre
handshake_result transport steps t w e = elim (handshake_pre-cases t t.state refl) [
  | inl (i, h) ↦ (i, from_pre-Done (handshake_pre t) h e)
  | inr h ↦ absurd (cc (sym (ap (λ o. (from_pre transport o steps t w).0) h) ∙ e))
]
  where
    from_pre-Done :
        (o : Option Stream)
        → o ≡ some (record t { state = handshaking })
        → (from_pre transport o steps t w).0 ≡ done tt
        → Done steps t (from_pre transport o steps t w)
    from_pre-Done none h e = absurd (cc h)
    from_pre-Done (some t') h e =
        let k : (t' ≡ record t { state = handshaking }) = cc h in
        let d = handshake_loop-Done transport steps t' w (ap (λ x. x.state) k) e in
        record {
          ready_now = d.ready_now;
          delivered = d.delivered;
          conserved = d.conserved ∙ ap (λ x. wire x ++ emitted steps) k;
        }

-- When `send_all` of some data returns without an error, the stream was ready, the ssl object took the
-- data after steps that only wanted more input, and all that it wrote was given to the transport, in
-- order and after what stood back, or stands back.
pub tls_send_result :
    {W : Type 0} (transport : Transport W) (b : ℕ) (bs : List ℕ) (steps : List (Step (Unit {0})))
    (t : Stream) (w : W)
    → (send_all transport (b ∷ bs) steps t w).0 ≡ done tt
    → (is_ready t.state ≡ true)
      × Delivers tt steps
      × (wire (send_all transport (b ∷ bs) steps t w).1 ≡ wire t ++ emitted steps)
unfolding send_all checked_dance
tls_send_result transport b bs steps t w e = gated (is_ready t.state) e
  where
    gated :
        (g : Bool)
        → let r = if g then dance transport steps t w else (raised bad_state, t, w) in
          r.0 ≡ done tt → (g ≡ true) × Delivers tt steps × (wire r.1 ≡ wire t ++ emitted steps)
    gated true e = let d = dance_result transport steps t w tt e in (refl, d.0, d.1)
    gated false e = absurd (cc e)
