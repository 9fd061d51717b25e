-- ===== src/Net/Tls/Samples.antt =====
-- A TLS stream over a transport that takes all it is given and answers with one byte.
use tonio.Prelude.{ℕ, suc, ◌≡◌, refl, true, false, none, List, [], ◌∷◌, ◌++◌}
use tonio.Net.Tls.{
  State, init, ready, Step, gives, wants_read, Stream, Transport, chunk, exchange, dance,
  handshake_loop, handshake, recv, send,
}
use tonio.Net.Tls.Bytes.{wire, emitted, Delivers, dance_result}
use tonio.Net.Tls.Handshake.{Done, handshake_result}

-- Its state is the number of answers given.
abbrev echo : Transport ℕ
echo = record { send_all = λ out w. (none, w); receive_some = λ w. (chunk (w ∷ []), suc w) }

abbrev stream_in : State → Stream
stream_in s = record {
  state = s;
  compat_https = false;
  server_side = false;
  tls13 = true;
  egress_stack = [];
  recv_count = 0;
  recv_est_size = 16384;
  ingress = [];
  ingress_eof = false;
  sent = [];
  closes = 0;
}

abbrev reading_steps : List (Step (List ℕ))
reading_steps = wants_read [] ∷ gives (9 ∷ []) [] ∷ []

dance_result_example :
    Delivers (9 ∷ []) reading_steps
    × (wire (dance echo reading_steps (stream_in ready) 0).1
        ≡ wire (stream_in ready) ++ emitted reading_steps)
unfolding dance exchange recv
dance_result_example = dance_result echo reading_steps (stream_in ready) 0 (9 ∷ []) refl

abbrev shaking_steps : List (Step (Unit {0}))
shaking_steps = wants_read (1 ∷ []) ∷ wants_read [] ∷ gives tt (2 ∷ []) ∷ []

handshake_result_example :
    (init ≡ init)
    × Done shaking_steps (stream_in init) (handshake echo shaking_steps (stream_in init) 0)
unfolding handshake handshake_loop exchange recv send
handshake_result_example = handshake_result echo shaking_steps (stream_in init) 0 refl
