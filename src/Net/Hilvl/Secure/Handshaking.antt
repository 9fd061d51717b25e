-- ===== src/Net/Hilvl/Secure/Handshaking.antt =====
-- What TLSListener.accept gives, and what a handshake that fails does to a server.
use tonio.Prelude.{ℕ, suc, ◌≡◌, refl, sym, ap, ◌∙◌, Bool, true, List, [], ◌∷◌, ◌++◌}
use tonio.Net.Streams as Streams
use tonio.Net.Tls.{
  Stream, Step, Outcome, Transport, handshake, done, raised, pending, ready, resource_broken,
  transport_error, bad_state,
}
use tonio.Net.Tls.Handshake.{handshake_result}
use tonio.Net.Hilvl.Serving.{Accepted, Served, serve, Survives, streams}
use tonio.Net.Hilvl.Serving as Serving
use tonio.Net.Hilvl.Secure.{
  Secured, waiting, secured, os_failed, handshake_failed, tls_stream, from_handshake, failure,
  answers, secure, accept_tls,
}

secured-from :
    (o : Outcome (Unit {0})) (t' t : Stream)
    → from_handshake o t' ≡ secured t
    → (o ≡ done tt) × (t' ≡ t)
unfolding from_handshake
secured-from (done u) t' t h = (refl, cc h)
secured-from (raised e) t' t h = absurd (cc h)
secured-from pending t' t h = absurd (cc h)

-- A stream that `TLSListener.accept` returns is ready.
pub accept_tls_ready :
    {W : Type 0} (transport : Transport W) (https tls13 : Bool) (s : ℕ)
    (steps : List (Step (Unit {0}))) (w : W) (t : Stream)
    → (accept_tls transport https tls13 (Streams.stream s) steps w).0 ≡ secured t
    → t.state ≡ ready
unfolding accept_tls secure
accept_tls_ready transport https tls13 s steps w t h =
    let new = tls_stream true https tls13 in
    let r = handshake transport steps new w in
    let (finished, same) = secured-from r.0 r.1 t h in
    let d = (handshake_result transport steps new w finished).1 in
    ap (λ u. u.state) (sym same) ∙ d.ready_now

-- The calls of `accept` after which a listener's task goes on.
abbrev pub Quiet : (ℕ → Bool) → List Secured → Type 0
Quiet retried [] = Unit
Quiet retried (waiting ∷ cs) = ⊥
Quiet retried (secured t ∷ cs) = Quiet retried cs
Quiet retried (os_failed e ∷ cs) = (retried e ≡ true) × Quiet retried cs
Quiet retried (handshake_failed (transport_error e) t ∷ cs) = (retried e ≡ true) × Quiet retried cs
Quiet retried (handshake_failed (resource_broken eof) t ∷ cs) = ⊥
Quiet retried (handshake_failed bad_state t ∷ cs) = ⊥

-- However many clients a TLS server has served, the first whose handshake fails in the TLS protocol ends
-- the listener's task with an error and closes the listener; the clients behind it are not accepted.
pub bad_handshake_stops :
    (retried : ℕ → Bool) (n : ℕ) (xs ys : List Secured) (eof : Bool) (t : Stream)
    → Quiet retried xs
    → let r = serve retried (answers n (xs ++ handshake_failed (resource_broken eof) t ∷ ys)) in
      (r.outcome ≡ Serving.raised (Serving.other_error 0))
      × (r.handled ≡ streams (answers n xs))
      × (r.closes ≡ 1)
unfolding serve answers failure
bad_handshake_stops retried n [] ys eof t h = (refl, refl, refl)
bad_handshake_stops retried n (waiting ∷ xs) ys eof t h = absurd h
bad_handshake_stops retried n (secured u ∷ xs) ys eof t h =
    let (o, s, c) = bad_handshake_stops retried (suc n) xs ys eof t h in (o, ap (◌∷◌ n) s, c)
bad_handshake_stops retried n (os_failed e ∷ xs) ys eof t h =
    rw h.0 (bad_handshake_stops retried n xs ys eof t h.1)
bad_handshake_stops retried n (handshake_failed (transport_error e) u ∷ xs) ys eof t h =
    rw h.0 (bad_handshake_stops retried n xs ys eof t h.1)
bad_handshake_stops retried n (handshake_failed (resource_broken z) u ∷ xs) ys eof t h = absurd h
bad_handshake_stops retried n (handshake_failed bad_state u ∷ xs) ys eof t h = absurd h
