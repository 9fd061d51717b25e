-- ===== src/Net/Socket/Handle.antt =====
-- The methods of `_Socket` in tonio/_net/_socket.py that change the socket and do not suspend, and
-- `bind`. What reaches the system is a list of calls, the oldest first.
use tonio.Prelude.{
  ℕ, suc, ◌≡◌, refl, ap, Bool, true, false, ◌||◌, Option, none, some, List, [], ◌∷◌, ◌++◌,
}
use tonio.Net.Address.{Address, Result, ok, ◌>>=◌}

-- Calls of the runtime, `io_deregister`, and of the wrapped socket.
pub data Effect : Type 0 where
  io_close close_fd detach_fd : Effect
  shutdown_way : ℕ → Effect
  bind_to : Address → Effect
  set_value : ℕ → ℕ → ℕ → Effect
  set_null : ℕ → ℕ → ℕ → Effect

-- `fd` is none where `fileno()` is -1.
pub record Handle : Type 0 where
  pub fd : Option ℕ
  pub eof : Bool
  pub effects : List Effect

-- `close`: the descriptor is deregistered before it is closed.
pub close : Handle → Handle
close h = elim h.fd [
  | none ↦ h
  | some n ↦ record h { fd = none; effects = h.effects ++ io_close ∷ close_fd ∷ [] }
]

-- `detach`: the number, where -1 is none, goes to the caller, and is not closed.
pub detach : Handle → Option ℕ × Handle
detach h = (h.fd, record h { fd = none; effects = h.effects ++ io_close ∷ detach_fd ∷ [] })

-- SHUT_RD, SHUT_WR, SHUT_RDWR
pub data Way : Type 0 where
  shut_rd shut_wr shut_rdwr : Way

abbrev number : Way → ℕ
number shut_rd = 0
number shut_wr = 1
number shut_rdwr = 2

abbrev sets_eof : Way → Bool
sets_eof shut_rd = false
sets_eof _ = true

-- `shutdown`, where the system's call works or raises the error number.
pub shutdown : Way → Option ℕ → Handle → Option ℕ × Handle
shutdown way (some e) h =
    (some e, record h { effects = h.effects ++ shutdown_way (number way) ∷ [] })
shutdown way none h = (
  none,
  record h { eof = h.eof || sets_eof way; effects = h.effects ++ shutdown_way (number way) ∷ [] },
)

-- `setsockopt`, with a value or a length; none of both, or both, is TypeError.
pub setsockopt : ℕ → ℕ → Option ℕ → Option ℕ → Handle → Option Handle
setsockopt level name none none h = none
setsockopt level name (some v) none h =
    some (record h { effects = h.effects ++ set_value level name v ∷ [] })
setsockopt level name none (some l) h =
    some (record h { effects = h.effects ++ set_null level name l ∷ [] })
setsockopt level name (some v) (some l) h = none

-- `bind`, behind the resolution of the address.
pub bind : Result Address → Handle → Result Handle
bind address h = do a ← address; ok (record h { effects = h.effects ++ bind_to a ∷ [] })

pub close_times : ℕ → Handle → Handle
unfolding close
close_times ℕ.zero h = h
close_times (suc n) h = close_times n (close h)

closed_stays :
    (n : ℕ) (b : Bool) (es : List Effect)
    → let h : Handle = record { fd = none; eof = b; effects = es } in close_times n h ≡ h
unfolding close_times close
closed_stays ℕ.zero b es = refl
closed_stays (suc n) b es = closed_stays n b es

-- However often an open socket is closed, it is deregistered once, and then closed once.
socket_closed_once :
    (n k : ℕ) (b : Bool) (es : List Effect)
    → (close_times (suc n) (record { fd = some k; eof = b; effects = es })).effects
      ≡ es ++ io_close ∷ close_fd ∷ []
unfolding close_times close
socket_closed_once n k b es =
    ap (λ h. h.effects) (closed_stays n b (es ++ io_close ∷ close_fd ∷ []))
