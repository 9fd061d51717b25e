-- ===== src/Net/Address/Samples.antt =====
-- Addresses resolved with a small host table.
use tonio.Prelude.{ℕ, ◌≡◌, refl, Bool, false, Option, some, List, [], ◌∷◌, inl}
use Prim.Native.String.{String}
use text.Mathlib.Text.{◌==◌ as str_eq}
use tonio.Net.Address.{
  odd_tuple, Port, number, Kind, Family, inet, inet6, Flags, Result, ok, err, value_error,
  resolve_address, resolve_inet, is_numeric, lookup_host, normalise,
}
use tonio.Net.Address.Resolve.{KeepsNumbers, resolve_scope, resolve_rejects}

-- Well-formed numeric hosts.
abbrev pton : Family → String → Bool
pton inet h = str_eq h "127.0.0.1"
pton _ h = str_eq h "::1"

abbrev table : Option String → Port → Kind → Flags → Result (List (Option String × Port × List ℕ))
table h p k f = ok ((some "fe80::1", p, 0 ∷ 0 ∷ []) ∷ [])

abbrev stream4 : Kind
stream4 = record { type_ = 1; family = inet; proto = 0; ipv6_v6only = false }

abbrev stream6 : Kind
stream6 = record { type_ = 1; family = inet6; proto = 0; ipv6_v6only = false }

-- A link-local host that a name stands for: flow and scope stay the caller's.
scoped_host : KeepsNumbers (7 ∷ []) (7 ∷ 0 ∷ [])
unfolding resolve_address resolve_inet is_numeric lookup_host normalise
scoped_host =
    resolve_scope pton table stream6 (some "myhost") (some "fe80::1") (number 80) (number 80)
      (7 ∷ []) (7 ∷ 0 ∷ []) false refl refl refl

-- A tuple of five is no address.
five_rejected : resolve_address pton table stream4 (odd_tuple 5) false ≡ err value_error
five_rejected =
    resolve_rejects pton table stream4 (odd_tuple 5) false (inl (refl, λ h p e. absurd (cc e)))
