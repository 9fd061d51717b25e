-- ===== src/Net/Tls/Bytes.antt =====
-- What a TLSStream gives to its transport is what the ssl object wrote, in order.
use tonio.Prelude.{
  ℕ, ◌≡◌, refl, sym, ap, ◌∙◌, Bool, true, false, Option, none, some, List, [], ◌∷◌, ◌++◌, inl, inr,
  Bool-cases, ◌==◌,
}
use tonio.Net.Tls.{
  Step, gives, wants_read, ssl_error, Outcome, done, raised, pending, Stream, Received, chunk,
  recv_fails, Transport, recv_chunk, recv, send, exchange, after, dance, sent_or_broken,
}

-- All that the stream has taken from the egress buffer: sent, or kept back.
abbrev pub wire : Stream → List ℕ
wire t = t.sent ++ t.egress_stack

-- What the ssl object writes up to the step that gives a value.
abbrev pub emitted : {V : Type 0} → List (Step V) → List ℕ
emitted [] = []
emitted (ssl_error eof ∷ steps) = []
emitted (gives v out ∷ steps) = out
emitted (wants_read out ∷ steps) = out ++ emitted steps

-- Steps that want more input, and then one that gives the value.
abbrev pub Delivers : {V : Type 0} → V → List (Step V) → Type 0
Delivers v [] = ⊥
Delivers v (ssl_error eof ∷ steps) = ⊥
Delivers v (gives x out ∷ steps) = x ≡ v
Delivers v (wants_read out ∷ steps) = Delivers v steps

pub append_assoc : (xs ys zs : List ℕ) → (xs ++ ys) ++ zs ≡ xs ++ (ys ++ zs)
append_assoc [] ys zs = refl
append_assoc (x ∷ xs) ys zs = ap (◌∷◌ x) (append_assoc xs ys zs)

pub append_nil : (xs : List ℕ) → xs ++ [] ≡ xs
append_nil [] = refl
append_nil (x ∷ xs) = ap (◌∷◌ x) (append_nil xs)

sent_or_broken-wire :
    {W : Type 0} (transport : Transport W) (r : Option ℕ) (t : Stream)
    → wire (sent_or_broken transport r t).1 ≡ wire t
unfolding sent_or_broken
sent_or_broken-wire transport none t = refl
sent_or_broken-wire transport (some e) t = refl

send-wire :
    {W : Type 0} (transport : Transport W) (out : List ℕ) (t : Stream) (w : W)
    → wire (send transport out t w).1 ≡ wire t ++ out
unfolding send
send-wire transport out t w =
    sent_or_broken-wire transport (transport.send_all (t.egress_stack ++ out) w).0 _
    ∙ append_nil _
    ∙ sym (append_assoc t.sent t.egress_stack out)

recv_chunk-wire :
    {W : Type 0} (transport : Transport W) (r : Received) (t : Stream)
    → wire (recv_chunk transport r t).1 ≡ wire t
unfolding recv_chunk
recv_chunk-wire transport (chunk []) t = refl
recv_chunk-wire transport (chunk (b ∷ bs)) t = refl
recv_chunk-wire transport (recv_fails e) t = refl

recv-wire :
    {W : Type 0} (transport : Transport W) (n : ℕ) (t : Stream) (w : W)
    → wire (recv transport n t w).1 ≡ wire t
unfolding recv
recv-wire transport n t w = elim (Bool-cases (n == t.recv_count)) [
  | inl h ↦ rw h (recv_chunk-wire transport (transport.receive_some w).0 t)
  | inr h ↦ rw h refl
]

pub exchange-wire :
    {W : Type 0} (transport : Transport W) (out : List ℕ) (want : Bool) (t : Stream) (w : W)
    → wire (exchange transport out want t w).1 ≡ wire t ++ out
unfolding exchange
exchange-wire transport [] false t w = sym (append_nil _)
exchange-wire transport [] true t w = recv-wire transport t.recv_count t w ∙ sym (append_nil _)
exchange-wire transport (b ∷ out) want t w = send-wire transport (b ∷ out) t w

-- After an exchange that went well, the next method's result; after one that did not, its error.
pub after-cases :
    {W V : Type 0} (transport : Transport W) (r : Outcome (Unit {0}) × Stream × W)
    (next : Stream → W → Outcome V × Stream × W) (v : V)
    → (after transport r next).0 ≡ done v
    → after transport r next ≡ next r.1 r.2
after-cases transport (done u, t, w) next v e = refl
after-cases transport (raised x, t, w) next v e = absurd (cc e)
after-cases transport (pending, t, w) next v e = absurd (cc e)

-- When `_ssl_dance` returns a value, it is the one that the ssl object gave after steps that only
-- wanted more input, and the transport was given exactly what stood back before and what the ssl
-- object wrote meanwhile, in order, less what stands back now.
pub dance_result :
    {W V : Type 0} (transport : Transport W) (steps : List (Step V)) (t : Stream) (w : W) (v : V)
    → (dance transport steps t w).0 ≡ done v
    → Delivers v steps × (wire (dance transport steps t w).1 ≡ wire t ++ emitted steps)
unfolding dance
dance_result transport [] t w v e = absurd (cc e)
dance_result transport (ssl_error eof ∷ steps) t w v e = absurd (cc e)
dance_result transport (gives x out ∷ steps) t w v e =
    let a = after-cases transport (exchange transport out false t w) _ v e in
    let gives_it : (done x ≡ done v) = sym (ap (λ p. p.0) a) ∙ e in
    (cc gives_it, ap (λ p. wire p.1) a ∙ exchange-wire transport out false t w)
dance_result transport (wants_read out ∷ steps) t w v e =
    let a = after-cases transport (exchange transport out true t w) _ v e in
    let r = exchange transport out true t w in
    let i = dance_result transport steps r.1 r.2 v (sym (ap (λ p. p.0) a) ∙ e) in
    (
      i.0,
      ap (λ p. wire p.1) a
          ∙ i.1
          ∙ (ap (λ l. l ++ emitted steps) (exchange-wire transport out true t w)
              ∙ append_assoc (wire t) out (emitted steps)),
    )
