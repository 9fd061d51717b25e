-- ===== src/Net/Hilvl/Secure.antt =====
-- TLSListener of tonio/_net/_tls.py, and the functions of tonio/_net/_hilvl.py that compose opening,
-- serving and TLS.
pub mod Handshaking
use tonio.Prelude.{ℕ, suc, Bool, true, false, Option, none, some, List, [], ◌∷◌, map, if◌then◌else◌}
use tonio.Net.Streams.{AcceptState}
use tonio.Net.Streams as Streams
use tonio.Net.Tls.{Stream, Step, Error, Outcome, Transport, handshake}
use tonio.Net.Tls as Tls
use tonio.Net.Hilvl.Serving.{Accepted, Served, serve, serve_listeners}
use tonio.Net.Hilvl.Serving as Serving
use tonio.Net.Hilvl.Listeners.{Target, open_tcp_listeners}
use tonio.Net.Hilvl.Listeners as Listeners
use tonio.Net.Hilvl.Racing as Racing
use tonio.Net.Hilvl.Unix as Unix

-- TLSStream.__init__; `tls13` is the version that the ssl object negotiates.
unfoldable pub tls_stream : Bool → Bool → Bool → Stream
tls_stream server_side https_compatible tls13 = record {
  state = Tls.init;
  compat_https = https_compatible;
  server_side = server_side;
  tls13 = tls13;
  egress_stack = [];
  recv_count = 0;
  recv_est_size = 16384;
  ingress = [];
  ingress_eof = false;
  sent = [];
  closes = 0;
}

-- How a function ends that puts TLS over a stream: `handshake_failed` has the error, and the stream
-- that nobody gets.
pub data Secured : Type 0 where
  waiting : Secured
  secured : Stream → Secured
  os_failed : ℕ → Secured
  handshake_failed : Error → Stream → Secured

pub from_handshake : Outcome (Unit {0}) → Stream → Secured
from_handshake (Tls.done u) t = secured t
from_handshake (Tls.raised e) t = handshake_failed e t
from_handshake Tls.pending t = waiting

-- An error as `except OSError` of `serve_listeners` meets it: that of the transport is one, the others
-- are not.
pub failure : Error → Accepted
failure (Tls.transport_error e) = Serving.os_error e
failure (Tls.resource_broken eof) = Serving.other_error 0
failure Tls.bad_state = Serving.other_error 1

-- What a listener's task gets from its `accept` calls, with the streams numbered from `n`: a call that
-- waits is the last one.
pub answers : ℕ → List Secured → List Accepted
unfolding failure
answers n [] = []
answers n (waiting ∷ cs) = []
answers n (secured t ∷ cs) = Serving.stream n ∷ answers (suc n) cs
answers n (os_failed e ∷ cs) = Serving.os_error e ∷ answers n cs
answers n (handshake_failed e t ∷ cs) = failure e ∷ answers n cs

-- How `serve_tcp`, `serve_unix` and `serve_tls_over_tcp` go on: the tasks of the listeners, or the
-- error of opening them.
pub data Serve (E : Type 0) : Type 0 where
  tasks : List Served → Serve E
  not_opened : E → Serve E

-- `serve_listeners` of what was opened, where listener `l` gets the answers `accepts l`.
pub serve_opened : (ℕ → Bool) → (ℕ → List Accepted) → Listeners.Outcome → Serve Listeners.Outcome
serve_opened retried accepts (Listeners.opened ls) =
    tasks (serve_listeners retried (map accepts ls))
serve_opened retried accepts (Listeners.raised e) = not_opened (Listeners.raised e)
serve_opened retried accepts (Listeners.unsupported us) = not_opened (Listeners.unsupported us)

pub serve_tcp : (ℕ → Bool) → ℕ → Bool → List Target → (ℕ → List Accepted) → Serve Listeners.Outcome
unfolding serve_opened
serve_tcp retried eafnosupport win32 ts accepts =
    serve_opened retried accepts (open_tcp_listeners eafnosupport win32 ts).0

-- One listener, which is not a list.
pub serve_unix_opened : (ℕ → Bool) → List Accepted → Unix.Outcome → Serve Unix.Outcome
serve_unix_opened retried accepts Unix.listening = tasks (serve_listeners retried (accepts ∷ []))
serve_unix_opened retried accepts Unix.value_error = not_opened Unix.value_error
serve_unix_opened retried accepts (Unix.os_error e) = not_opened (Unix.os_error e)

pub serve_unix :
    (ℕ → Bool) → Unix.FsPath → Option ℕ → Unix.Kernel → List Accepted → Serve Unix.Outcome
unfolding serve_unix_opened
serve_unix retried path mode k accepts =
    serve_unix_opened retried accepts (Unix.open_unix_listener path mode k).outcome

-- `serve_tls_over_tcp`, over `open_tls_over_tcp_listeners`, which puts a TLSListener over each listener:
-- `clients l` has what its `accept` calls come to.
unfoldable pub serve_tls_over_tcp :
    (ℕ → Bool) → ℕ → Bool → List Target → (ℕ → List Secured) → Serve Listeners.Outcome
unfolding serve_opened answers
serve_tls_over_tcp retried eafnosupport win32 ts clients =
    serve_opened retried (λ l. answers 0 (clients l)) (open_tcp_listeners eafnosupport win32 ts).0

-- `open_unix_socket`: the error of `socket`, or of `connect` under `_close_on_error`, and whether the
-- socket is left open.
pub open_unix_socket : Option ℕ → Option ℕ → Option ℕ × Bool
open_unix_socket (some e) connects = (some e, false)
open_unix_socket none none = (none, true)
open_unix_socket none (some e) = (some e, false)

-- How `open_tls_over_tcp_stream` ends: as `open_tcp_stream` does, or as the handshake does.
pub data OpenedTls : Type 0 where
  tcp : Racing.Outcome → OpenedTls
  tls : Secured → OpenedTls

module _ {W : Type 0} (transport : Transport W) where
  -- `yield ret.handshake()` on a new stream.
  unfoldable pub secure : Stream → List (Step (Unit {0})) → W → Secured × W
  unfolding from_handshake
  secure t steps w = let (o, t', w') = handshake transport steps t w in (from_handshake o t', w')

  -- TLSListener.accept, where the transport's `accept` has come to the given state.
  unfoldable pub accept_tls : Bool → Bool → AcceptState → List (Step (Unit {0})) → W → Secured × W
  unfolding secure tls_stream
  accept_tls https tls13 Streams.waiting steps w = (waiting, w)
  accept_tls https tls13 (Streams.failed e) steps w = (os_failed e, w)
  accept_tls https tls13 (Streams.stream s) steps w = secure (tls_stream true https tls13) steps w

  -- `open_tls_over_tcp_stream`, where `open_tcp_stream` has ended so.
  pub open_tls_over_tcp_stream :
      Bool → Bool → Racing.Outcome → List (Step (Unit {0})) → W → OpenedTls × W
  unfolding secure tls_stream
  open_tls_over_tcp_stream https tls13 (Racing.stream s) steps w =
      let (r, w') = secure (tls_stream false https tls13) steps w in (tls r, w')
  open_tls_over_tcp_stream https tls13 Racing.pending steps w = (tcp Racing.pending, w)
  open_tls_over_tcp_stream https tls13 (Racing.failed es) steps w = (tcp (Racing.failed es), w)
  open_tls_over_tcp_stream https tls13 Racing.assertion steps w = (tcp Racing.assertion, w)
  open_tls_over_tcp_stream https tls13 (Racing.close_error es) steps w =
      (tcp (Racing.close_error es), w)
