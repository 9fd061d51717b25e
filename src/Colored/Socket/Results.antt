-- ===== src/Colored/Socket/Results.antt =====
-- What the methods with `await` return or raise, and which addresses they take.
use Prim.Native.String.{String}
use tonio.Prelude.{ℕ, ◌≡◌, refl, Bool, false, Option, none, some, List, ◌∷◌}
use tonio.Io.{reading, writing, ScheduledIo}
use tonio.Net.Address.{
  Result, ok, err, ◌>>=◌, Family, inet, inet6, unix, other, Port, Address, Kind, Flags,
}
use tonio.Net.Address as Address
use tonio.Net.Socket.{Move}
use tonio.Net.Socket.Loop.{loop_result, first_result}
use tonio.Net.Socket.Calls.{Started, Faithful, FaithfulOk, trying, sendto, sendmsg}
use tonio.Colored.Socket.{
  do_accept, do_recv, do_recv_into, do_recvfrom, do_recvfrom_into, do_recvmsg, do_recvmsg_into,
  do_send, resolve_inet, resolve_address, do_sendto, do_sendmsg,
}

module _ (inet_pton : Family → String → Bool)
    (getaddrinfo : Option String
      → Port
      → Kind
      → Flags
      → Result (List (Option String × Port × List ℕ))) where
  by_family :
      (f : Family) (k : Kind) (address : Address) (local : Bool)
      → k.family ≡ f
      → resolve_address inet_pton getaddrinfo k address local
        ≡ Address.resolve_address inet_pton getaddrinfo k address local
  unfolding resolve_inet resolve_address Address.resolve_inet Address.resolve_address
  by_family inet k address local e = rw e refl
  by_family inet6 k address local e = rw e refl
  by_family unix k (Address.path s) local e = rw e refl
  by_family unix k (Address.tuple h p r) local e = rw e refl
  by_family unix k (Address.odd_tuple n) local e = rw e refl
  by_family unix k Address.value local e = rw e refl
  by_family other k address local e = rw e refl

  -- Both modules resolve an address alike.
  pub resolve_agrees :
      (k : Kind) (address : Address) (local : Bool)
      → resolve_address inet_pton getaddrinfo k address local
        ≡ Address.resolve_address inet_pton getaddrinfo k address local
  resolve_agrees k address local = by_family k.family k address local refl

  -- A method that starts once its address is resolved.
  resolved-FaithfulOk :
      {R : Type 0} (r : Result Address) (f : Address → Started R) (ms : List (Move R))
      → ((a : Address) → Faithful (f a) ms)
      → FaithfulOk (r >>= λ a. ok (f a)) ms
  resolved-FaithfulOk (ok a) f ms h = h a
  resolved-FaithfulOk (err e) f ms h = tt

  -- Every method of the socket that awaits, but `connect`, driven by any answers of the kernel and reports
  -- of the poller, returns or raises exactly what the kernel answered last, every earlier answer being
  -- a refusal after which it called again. The sending ones are given something to send, and those
  -- with an address are started only if it could be resolved.
  pub awaited_result :
      (a b c : ℕ) (bs : List ℕ) (buffers : List (List ℕ)) (k : Kind) (address : Address)
      (io : ScheduledIo) (ms : List (Move ℕ)) (ns : List (Move (Option ℕ)))
      → Faithful (do_accept io) ms
        × Faithful (do_recv a b io) ms
        × Faithful (do_recv_into a b c io) ms
        × Faithful (do_recvfrom a b io) ms
        × Faithful (do_recvfrom_into a b c io) ms
        × Faithful (do_recvmsg a b c io) ms
        × Faithful (do_recvmsg_into bs b c io) ms
        × Faithful (do_send (b ∷ bs) a io) ms
        × FaithfulOk (do_sendto inet_pton getaddrinfo k (b ∷ bs) address io) ns
        × FaithfulOk (do_sendmsg inet_pton getaddrinfo k buffers bs a none io) ms
        × FaithfulOk (do_sendmsg inet_pton getaddrinfo k buffers bs a (some address) io) ms
  unfolding do_accept do_recv do_recv_into do_recvfrom do_recvfrom_into do_recvmsg do_recvmsg_into
      do_send do_sendto do_sendmsg
  awaited_result a b c bs buffers k address io ms ns =
      let h = loop_result reading io ms in
      let f = first_result writing io ms in
      let r = resolve_address inet_pton getaddrinfo k address false in
      (
        h,
        h,
        h,
        h,
        h,
        h,
        h,
        f,
        resolved-FaithfulOk r (λ x. trying (sendto (b ∷ bs) x) io) ns
            (λ x. first_result writing io ns),
        f,
        resolved-FaithfulOk r (λ x. trying (sendmsg buffers bs a (some x)) io) ms (λ x. f),
      )
