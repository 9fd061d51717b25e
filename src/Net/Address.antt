-- ===== src/Net/Address.antt =====
-- `_resolve_address` and `_Socket._resolve_address` of tonio/_net/_socket.py. The C library's address
-- functions are parameters: `inet_pton` tells whether a numeric host is well formed, and
-- `getaddrinfo` gives the socket addresses of a host, or an error number.
mod Samples
pub mod Resolve
use tonio.Prelude.{
  ℕ, Bool, true, false, not, ◌&&◌, ◌||◌, Option, none, some, List, [], ◌∷◌, length, ◌==◌, leb,
  if◌then◌else◌,
}
use Prim.Native.String.{String}
use text.Mathlib.Text.{◌==◌ as str_eq}

pub data Error : Type 0 where
  value_error assertion_error : Error
  gai_error : ℕ → Error

pub data Result {ℓ} (A : Type ℓ) : Type ℓ where
  ok : A → Result A
  err : Error → Result A

infixl 5 ◌>>=◌
abbrev pub ◌>>=◌ {ℓ κ} : {A : Type ℓ} {B : Type κ} → Result A → (A → Result B) → Result B
ok a >>= f = f a
err e >>= f = err e

pub data Family : Type 0 where
  inet inet6 unix other : Family

pub data Port : Type 0 where
  number : ℕ → Port
  service : String → Port

-- A tuple of a host, a port and up to two numbers; any other tuple, by its length; a path, or another
-- value.
pub data Address : Type 0 where
  tuple : Option String → Port → List ℕ → Address
  odd_tuple : ℕ → Address
  path : String → Address
  value : Address

-- AI_PASSIVE and AI_V4MAPPED
pub record Flags : Type 0 where
  pub passive : Bool
  pub v4mapped : Bool

pub record Kind : Type 0 where
  pub type_ : ℕ
  pub family : Family
  pub proto : ℕ
  pub ipv6_v6only : Bool

abbrev pub is_inet6 : Family → Bool
is_inet6 inet6 = true
is_inet6 _ = false

-- The checks on the address of an internet socket.
unfoldable pub check_shape : Family → Address → Result (Option String × Port × List ℕ)
check_shape inet (tuple h p []) = ok (h, p, [])
check_shape inet _ = err value_error
check_shape inet6 (tuple h p r) = if leb (length r) 2 then ok (h, p, r) else err value_error
check_shape inet6 _ = err value_error
check_shape _ _ = err value_error

-- The host as it goes to getaddrinfo.
unfoldable pub lookup_host : Option String → Option String
lookup_host none = none
lookup_host (some h) =
    if str_eq h "" then none else if str_eq h "<broadcast>" then some "255.255.255.255" else some h

unfoldable pub lookup_flags : Kind → Bool → Flags
lookup_flags k local = record { passive = local; v4mapped = is_inet6 k.family && not k.ipv6_v6only }

-- `list_normed[2] = address[2]`, `list_normed[3] = address[3]`
unfoldable pub overlay : List ℕ → List ℕ → List ℕ
overlay [] normed = normed
overlay (x ∷ r) [] = []
overlay (x ∷ r) (n ∷ normed) = x ∷ overlay r normed

module _ (inet_pton : Family → String → Bool)
    (getaddrinfo : Option String
      → Port
      → Kind
      → Flags
      → Result (List (Option String × Port × List ℕ))) where
  -- `isinstance(port, int) and host is not None` and inet_pton does not raise.
  unfoldable pub is_numeric : Family → Option String → Port → Bool
  is_numeric f (some h) (number p) = inet_pton f h
  is_numeric f _ _ = false

  -- The first entry, with the flow and scope numbers of the address for IPv6.
  unfoldable pub normalise : Family → List ℕ → List (Option String × Port × List ℕ) → Result Address
  unfolding overlay
  normalise f r [] = err assertion_error
  normalise f r ((h, p, normed) ∷ rest) =
      if is_inet6 f
      then (if length normed == 2 then ok (tuple h p (overlay r normed)) else err assertion_error)
      else ok (tuple h p normed)

  unfoldable pub resolve_inet : Kind → Address → Bool → Result Address
  unfolding check_shape is_numeric lookup_host lookup_flags normalise
  resolve_inet k address local = do
    (h, p, r) ← check_shape k.family address
    if is_numeric k.family h p
        then ok address
        else (getaddrinfo (lookup_host h) p k (lookup_flags k local) >>= normalise k.family r)

  -- `_resolve_address`; os.fspath of a path is the path.
  unfoldable pub resolve_address : Kind → Address → Bool → Result Address
  resolve_address k address local = elim k.family [
    | inet ↦ resolve_inet k address local
    | inet6 ↦ resolve_inet k address local
    | unix ↦ elim address [ path s ↦ ok (path s) | _ ↦ err assertion_error ]
    | other ↦ ok address
  ]
