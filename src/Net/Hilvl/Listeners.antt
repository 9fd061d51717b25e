-- ===== src/Net/Hilvl/Listeners.antt =====
-- `open_tcp_listeners` of tonio/_net/_hilvl.py. What the kernel says for each address that
-- getaddrinfo gave is a list.
use tonio.Prelude.{
  ℕ, zero, suc, ◌≡◌, refl, sym, ap, Bool, Option, none, some, List, [], ◌∷◌, ◌++◌, arith, length,
  length-append, count, one_if, ltb, min, ◌==◌, if◌then◌else◌, inl, inr, ◌⊎◌, Option-cases,
  Bool-cases, upto, count-upto,
}

-- What `socket(family, type_, proto)` gives.
pub data Made : Type 0 where
  made : Made
  refused : ℕ → Made

-- One address, and the errors of the calls on its socket, if they fail.
pub record Target : Type 0 where
  pub inet6 : Bool
  pub socket : Made
  pub reuse_addr : Option ℕ
  pub v6only : Option ℕ
  pub bind : Option ℕ
  pub listen : Option ℕ
  pub wrap : Option ℕ

-- The sockets are numbered as they are made; `closed` has those closed so far.
pub record Sockets : Type 0 where
  pub count_made : ℕ
  pub closed : List ℕ

pub data Outcome : Type 0 where
  opened : List ℕ → Outcome
  raised : ℕ → Outcome
  -- OSError(EAFNOSUPPORT) from the group of these
  unsupported : List ℕ → Outcome

-- `min(backlog or 0xFFFF, 0xFFFF)`
pub backlog_size : Option ℕ → ℕ
backlog_size none = 65535
backlog_size (some n) = if n == 0 then 65535 else min n 65535

abbrev or_else : Option ℕ → Option ℕ → Option ℕ
or_else none next = next
or_else (some e) next = some e

-- The calls on a new socket, in order, up to the first that fails.
pub set_up : Bool → Target → Option ℕ
set_up win32 t =
    or_else (if win32 then none else t.reuse_addr)
      (or_else (if t.inet6 then t.v6only else none) (or_else t.bind (or_else t.listen t.wrap)))

-- The outer `except`: all listeners so far are closed.
pub close_listeners : List ℕ → Sockets → Sockets
close_listeners ls s = record s { closed = s.closed ++ ls }

-- The end of the function, behind the loop.
pub or_unsupported : List ℕ → List ℕ → Outcome
or_unsupported [] (u ∷ us) = unsupported (u ∷ us)
or_unsupported ls us = opened ls

-- The loop over the addresses: EAFNOSUPPORT is the error number `eafnosupport`.
pub open_loop : ℕ → Bool → List Target → List ℕ → List ℕ → Sockets → Outcome × Sockets
unfolding set_up close_listeners or_unsupported
open_loop eafnosupport win32 [] ls us s = (or_unsupported ls us, s)
open_loop eafnosupport win32 (t ∷ ts) ls us s = elim t.socket [
  | refused e ↦
      let skipped = open_loop eafnosupport win32 ts ls (us ++ e ∷ []) s in
      if e == eafnosupport then skipped else (raised e, close_listeners ls s)
  | made ↦ elim (set_up win32 t) [
    | none ↦
        open_loop eafnosupport win32 ts (ls ++ s.count_made ∷ []) us
          (record s { count_made = suc s.count_made })
    | some e ↦ (
      raised e,
      close_listeners ls
          (record { count_made = suc s.count_made; closed = s.closed ++ s.count_made ∷ [] }),
    )
  ]
]

pub open_tcp_listeners : ℕ → Bool → List Target → Outcome × Sockets
unfolding open_loop
open_tcp_listeners eafnosupport win32 ts =
    open_loop eafnosupport win32 ts [] [] (record { count_made = 0; closed = [] })

-- What each outcome says of the sockets that were made.
abbrev pub Accounted : Outcome × Sockets → Type 0
Accounted (opened ls, s) = (ls ≡ upto s.count_made) × (s.closed ≡ [])
Accounted (raised e, s) = (i : ℕ) → count i s.closed ≡ one_if (ltb i s.count_made)
Accounted (unsupported us, s) = (s.count_made ≡ 0) × (s.closed ≡ [])

upto_empty : (n : ℕ) → upto n ≡ [] → n ≡ 0
upto_empty zero h = refl
upto_empty (suc n) h = absurd (omega (arith, ap length h, length-append (upto n) (n ∷ [])))

finish-Accounted :
    (ls us : List ℕ) (s : Sockets)
    → ls ≡ upto s.count_made
    → s.closed ≡ []
    → Accounted (or_unsupported ls us, s)
unfolding or_unsupported
finish-Accounted [] [] s h c = (h, c)
finish-Accounted [] (u ∷ us) s h c = (upto_empty s.count_made (sym h), c)
finish-Accounted (l ∷ ls) us s h c = (h, c)

Made-cases : (m : Made) → (m ≡ made) ⊎ ((e : ℕ) × (m ≡ refused e))
Made-cases made = inl refl
Made-cases (refused e) = inr (e, refl)

-- All listeners, and the socket that could not be set up, are closed.
failed-Accounted :
    (ls : List ℕ) (s : Sockets) (e i : ℕ)
    → ls ≡ upto s.count_made
    → s.closed ≡ []
    → (count i (s.closed ++ ls) ≡ one_if (ltb i s.count_made))
      × (count i ((s.closed ++ s.count_made ∷ []) ++ ls) ≡ one_if (ltb i (suc s.count_made)))
failed-Accounted ls s e i h c =
    rw (h, c) (count-upto i s.count_made, ground (arith, count-upto i s.count_made))

open_loop-Accounted :
    (eafnosupport : ℕ) (win32 : Bool) (ts : List Target) (ls us : List ℕ) (s : Sockets)
    → ls ≡ upto s.count_made
    → s.closed ≡ []
    → Accounted (open_loop eafnosupport win32 ts ls us s)
unfolding open_loop close_listeners
open_loop-Accounted n win32 [] ls us s h c = finish-Accounted ls us s h c
open_loop-Accounted n win32 (t ∷ ts) ls us s h c = elim (Made-cases t.socket) [
  | inl m ↦ elim (Option-cases (set_up win32 t)) [
    | inl u ↦
        rw (m, u)
          (open_loop-Accounted n win32 ts (ls ++ s.count_made ∷ []) us _
            (ap (λ l. l ++ s.count_made ∷ []) h) c)
    | inr (e, u) ↦ rw (m, u) (λ i. (failed-Accounted ls s e i h c).1)
  ]
  | inr (e, m) ↦ elim (Bool-cases (e == n)) [
    | inl q ↦ rw (m, q) (open_loop-Accounted n win32 ts ls (us ++ e ∷ []) s h c)
    | inr q ↦ rw (m, q) (λ i. (failed-Accounted ls s e i h c).0)
  ]
]

-- Whatever the kernel says of each address: if listeners are returned, they are all the sockets that
-- were made, in the order of the addresses, and none was closed; if an error is raised, every socket
-- that was made has been closed exactly once; and if it is said that no address family is supported,
-- no socket was made.
pub open_tcp_listeners-Accounted :
    (eafnosupport : ℕ) (win32 : Bool) (ts : List Target)
    → Accounted (open_tcp_listeners eafnosupport win32 ts)
unfolding open_tcp_listeners
open_tcp_listeners-Accounted n win32 ts = open_loop-Accounted n win32 ts [] [] _ refl refl
