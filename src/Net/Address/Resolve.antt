-- ===== src/Net/Address/Resolve.antt =====
-- What `_resolve_address` promises, whatever the C library answers.
use tonio.Prelude.{
  ℕ, ◌≤◌, ◌<◌, ◌≡◌, refl, ap, ◌∙◌, sym, Bool, true, false, Option, some, List, [], ◌∷◌, arith,
  length, take, inl, inr, ◌⊎◌, ◌≢◌, Bool-cases, leb,
}
use Prim.Native.String.{String}
use tonio.Net.Address.{
  value_error, Result, ok, err, Family, inet, inet6, Port, number, Address, tuple, odd_tuple, path,
  value, Kind, Flags, check_shape, overlay, is_numeric, normalise, resolve_inet, resolve_address,
  ◌>>=◌, lookup_host, lookup_flags,
}

length-overlay : (r normed : List ℕ) → length (overlay r normed) ≡ length normed
unfolding overlay
length-overlay [] normed = refl
length-overlay (x ∷ r) [] = refl
length-overlay (x ∷ r) (n ∷ normed) = omega (arith, length-overlay r normed)

take-overlay :
    (r normed : List ℕ) → length r ≤ length normed → take (length r) (overlay r normed) ≡ r
unfolding overlay
take-overlay [] normed h = refl
take-overlay (y ∷ r) [] h = absurd (omega arith)
take-overlay (y ∷ r) (n ∷ normed) h = ap (◌∷◌ y) (take-overlay r normed (omega arith))

-- Two numbers, the first of which are these.
abbrev pub KeepsNumbers : List ℕ → List ℕ → Type 0
KeepsNumbers r r' = (length r' ≡ 2) × (take (length r) r' ≡ r)

module _ (inet_pton : Family → String → Bool)
    (getaddrinfo : Option String
      → Port
      → Kind
      → Flags
      → Result (List (Option String × Port × List ℕ))) where
  -- An internet address of the right shape whose host is numeric and whose port is a number comes
  -- back as it is: getaddrinfo plays no part.
  pub resolve_numeric :
      (k : Kind) (h : String) (n : ℕ) (r : List ℕ) (local : Bool)
      → ((k.family ≡ inet) × (r ≡ [])) ⊎ ((k.family ≡ inet6) × (length r ≤ 2))
      → inet_pton k.family h ≡ true
      → resolve_address inet_pton getaddrinfo k (tuple (some h) (number n) r) local
        ≡ ok (tuple (some h) (number n) r)
  unfolding resolve_address resolve_inet check_shape is_numeric
  resolve_numeric k h n r local (inl (f, e)) v = ground arith
  resolve_numeric k h n r local (inr (f, e)) v = ground arith

  normalise_scope :
      (r : List ℕ) (found : List (Option String × Port × List ℕ)) (h' : Option String) (p' : Port)
      (r' : List ℕ)
      → length r ≤ 2
      → normalise inet_pton getaddrinfo inet6 r found ≡ ok (tuple h' p' r')
      → KeepsNumbers r r'
  unfolding normalise
  normalise_scope r [] h' p' r' short e = absurd (cc e)
  normalise_scope r ((h, p, normed) ∷ rest) h' p' r' short e =
      let two : length normed ≡ 2 = ground arith in
      let same : overlay r normed ≡ r' = ground (arith, two) in
      rw (← same) (length-overlay r normed ∙ two, take-overlay r normed (omega (arith, two)))

  bind_scope :
      (r : List ℕ) (found : Result (List (Option String × Port × List ℕ))) (h' : Option String)
      (p' : Port) (r' : List ℕ)
      → length r ≤ 2
      → (found >>= normalise inet_pton getaddrinfo inet6 r) ≡ ok (tuple h' p' r')
      → KeepsNumbers r r'
  bind_scope r (ok found) h' p' r' short e = normalise_scope r found h' p' r' short e
  bind_scope r (err x) h' p' r' short e = absurd (cc e)

  resolve_looked :
      (k : Kind) (h : Option String) (p : Port) (r : List ℕ) (local : Bool)
      → k.family ≡ inet6
      → is_numeric inet_pton getaddrinfo inet6 h p ≡ false
      → leb (length r) 2 ≡ true
      → resolve_address inet_pton getaddrinfo k (tuple h p r) local ≡ (
          getaddrinfo (lookup_host h) p k (lookup_flags k local)
          >>= normalise inet_pton getaddrinfo inet6 r)
  unfolding resolve_address resolve_inet check_shape
  resolve_looked k h p r local f u short = ground arith

  resolve_long :
      (k : Kind) (h : Option String) (p : Port) (r : List ℕ) (local : Bool)
      → k.family ≡ inet6
      → leb (length r) 2 ≡ false
      → resolve_address inet_pton getaddrinfo k (tuple h p r) local ≡ err value_error
  unfolding resolve_address resolve_inet check_shape
  resolve_long k h p r local f long = ground arith

  -- An IPv6 address that is looked up comes back with two numbers behind the port, and each number
  -- that the caller gave stands where the caller put it.
  pub resolve_scope :
      (k : Kind) (h h' : Option String) (p p' : Port) (r r' : List ℕ) (local : Bool)
      → k.family ≡ inet6
      → is_numeric inet_pton getaddrinfo inet6 h p ≡ false
      → resolve_address inet_pton getaddrinfo k (tuple h p r) local ≡ ok (tuple h' p' r')
      → KeepsNumbers r r'
  resolve_scope k h h' p p' r r' local f u e = elim (Bool-cases (leb (length r) 2)) [
    | inl short ↦
        bind_scope r (getaddrinfo (lookup_host h) p k (lookup_flags k local)) h' p' r'
          (ground arith) (sym (resolve_looked k h p r local f u short) ∙ e)
    | inr long ↦ absurd (cc (resolve_long k h p r local f long))
  ]

  -- An internet address of the wrong shape is a ValueError: no tuple, one that is not a pair for IPv4,
  -- or one that has fewer than 2 or more than 4 parts for IPv6.
  pub resolve_rejects :
      (k : Kind) (address : Address) (local : Bool)
      → ((k.family ≡ inet) × ((h : Option String) (p : Port) → address ≢ tuple h p []))
        ⊎ ((k.family ≡ inet6)
            × ((h : Option String) (p : Port) (r : List ℕ) → address ≡ tuple h p r → 2 < length r))
      → resolve_address inet_pton getaddrinfo k address local ≡ err value_error
  unfolding resolve_address resolve_inet check_shape
  resolve_rejects k (tuple h p []) local (inl (f, s)) = absurd (s h p refl)
  resolve_rejects k (tuple h p (x ∷ r)) local (inl (f, s)) = ground arith
  resolve_rejects k (odd_tuple n) local (inl (f, s)) = ground arith
  resolve_rejects k (path q) local (inl (f, s)) = ground arith
  resolve_rejects k value local (inl (f, s)) = ground arith
  resolve_rejects k (tuple h p r) local (inr (f, s)) = ground (arith, s h p r refl)
  resolve_rejects k (odd_tuple n) local (inr (f, s)) = ground arith
  resolve_rejects k (path q) local (inr (f, s)) = ground arith
  resolve_rejects k value local (inr (f, s)) = ground arith
