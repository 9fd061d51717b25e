-- ===== src/Colored/Socket.antt =====
-- tonio/_colored/_net/_socket.py: the methods of `_Socket` that suspend. A loop with `await` is the
-- machine of Net.Socket, and its start that of Net.Socket.Calls.
pub mod Results
use Prim.Native.String.{String}
use tonio.Prelude.{ℕ, Bool, true, false, Option, none, some, List, [], ◌∷◌, if◌then◌else◌}
use tonio.Io.{Direction, reading, writing, ScheduledIo}
use tonio.Net.Address.{
  Error, value_error, assertion_error, Result, ok, err, ◌>>=◌, Family, inet, inet6, unix, other,
  Port, Address, path, Kind, Flags, check_shape, lookup_host, lookup_flags, is_numeric, normalise,
}
use tonio.Net.Socket.{Phase, finished, enter}
use tonio.Net.Socket.Calls.{
  Call, accept, recv, recv_into, recvfrom, recvfrom_into, recvmsg, recvmsg_into, send, sendto,
  sendmsg, Started, looping, trying, ended,
}
use tonio.Net.Socket.Connect as Connect

module _ {R : Type 0} where
  unfoldable pub do_accept : ScheduledIo → Started R
  do_accept io = looping reading accept io

  unfoldable pub do_recv : ℕ → ℕ → ScheduledIo → Started R
  do_recv bufsize flags io = looping reading (recv bufsize flags) io

  unfoldable pub do_recv_into : ℕ → ℕ → ℕ → ScheduledIo → Started R
  do_recv_into buffer nbytes flags io = looping reading (recv_into buffer nbytes flags) io

  unfoldable pub do_recvfrom : ℕ → ℕ → ScheduledIo → Started R
  do_recvfrom bufsize flags io = looping reading (recvfrom bufsize flags) io

  unfoldable pub do_recvfrom_into : ℕ → ℕ → ℕ → ScheduledIo → Started R
  do_recvfrom_into buffer nbytes flags io = looping reading (recvfrom_into buffer nbytes flags) io

  unfoldable pub do_recvmsg : ℕ → ℕ → ℕ → ScheduledIo → Started R
  do_recvmsg bufsize ancbufsize flags io = looping reading (recvmsg bufsize ancbufsize flags) io

  unfoldable pub do_recvmsg_into : List ℕ → ℕ → ℕ → ScheduledIo → Started R
  do_recvmsg_into buffers ancbufsize flags io =
      looping reading (recvmsg_into buffers ancbufsize flags) io

unfoldable pub do_send : List ℕ → ℕ → ScheduledIo → Started ℕ
do_send [] flags io = ended (finished 0) io
do_send (b ∷ data') flags io = trying (send (b ∷ data') flags) io

module _ (inet_pton : Family → String → Bool)
    (getaddrinfo : Option String
      → Port
      → Kind
      → Flags
      → Result (List (Option String × Port × List ℕ))) where
  -- `_resolve_address` behind the tests of the family, for an internet address.
  unfoldable pub resolve_inet : Kind → Address → Bool → Result Address
  resolve_inet k address local = do
    (h, p, r) ← check_shape k.family address
    if is_numeric inet_pton getaddrinfo k.family h p
        then ok address
        else (getaddrinfo (lookup_host h) p k (lookup_flags k local)
            >>= normalise inet_pton getaddrinfo k.family r)

  -- `_resolve_address`
  unfoldable pub resolve_address : Kind → Address → Bool → Result Address
  unfolding resolve_inet
  resolve_address k address local = elim k.family [
    | inet ↦ resolve_inet k address local
    | inet6 ↦ resolve_inet k address local
    | unix ↦ elim address [ path s ↦ ok (path s) | _ ↦ err assertion_error ]
    | other ↦ ok address
  ]

  -- `sendto`: no data is None at once, before the address is looked at.
  unfoldable pub do_sendto : Kind → List ℕ → Address → ScheduledIo → Result (Started (Option ℕ))
  do_sendto k [] address io = ok (ended (finished none) io)
  do_sendto k (b ∷ data') address io = do
    a ← resolve_address k address false
    ok (trying (sendto (b ∷ data') a) io)

  -- `sendmsg`: an address that is given is resolved first.
  unfoldable pub do_sendmsg :
      Kind → List (List ℕ) → List ℕ → ℕ → Option Address → ScheduledIo → Result (Started ℕ)
  do_sendmsg k buffers ancdata flags none io = ok (trying (sendmsg buffers ancdata flags none) io)
  do_sendmsg k buffers ancdata flags (some address) io = do
    a ← resolve_address k address false
    ok (trying (sendmsg buffers ancdata flags (some a)) io)

  -- `connect`, whose loop is that of Net.Socket.Connect.
  unfoldable pub do_connect : Kind → Address → ScheduledIo → Result Connect.Task
  do_connect k address io = do a ← resolve_address k address false; ok (Connect.started io)

  -- `bind`: the address that the thread binds.
  unfoldable pub bind : Kind → Address → Result Address
  bind k address = resolve_address k address true
