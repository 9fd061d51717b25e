-- ===== src/Net/Tls/Sharing/Gather.antt =====
-- What tasks hold between their steps and the ends of their sends.
use tonio.Prelude.{
  ℕ, zero, suc, ◌≤◌, ◌≡◌, refl, sym, ap, subst, ◌∙◌, some, List, [], ◌∷◌, ◌++◌, append-nil, arith,
  get_elem?, set, total, total-get_elem?,
}
use tonio.Net.Tls.Sharing.{Phase, outside, stepped, sending}
use tonio.Net.Tls.Sharing.Bytes.{is_sending}

abbrev pub sending_of : Phase → List ℕ
sending_of (sending d) = d
sending_of _ = []

abbrev pub stepped_of : Phase → List ℕ
stepped_of (stepped d) = d
stepped_of _ = []

abbrev pub is_stepped : Phase → ℕ
is_stepped (stepped d) = 1
is_stepped _ = 0

abbrev pub gather : (Phase → List ℕ) → List Phase → List ℕ
gather f [] = []
gather f (p ∷ ps) = f p ++ gather f ps

-- A part of the phases that a weight counts.
module _ (f : Phase → List ℕ) (w : Phase → ℕ) (h : (p : Phase) → w p ≡ 0 → f p ≡ []) where
  pub none_left : (ts : List Phase) → total w ts ≡ 0 → gather f ts ≡ []
  none_left [] z = refl
  none_left (p ∷ ts) z = rw (h p (omega arith), none_left ts (omega arith)) refl

  pub lone :
      (ts : List Phase) (i : ℕ) (p : Phase)
      → total w ts ≤ 1
      → get_elem? ts i ≡ some p
      → w p ≡ 1
      → gather f ts ≡ f p
  lone [] i p z at o = absurd (cc at)
  lone (q ∷ ts) zero p z at o =
      let e : q ≡ p = cc at in
      subst (λ r. f q ++ gather f ts ≡ f r) e
        (rw (none_left ts (omega (arith, ap w e))) (append-nil (f q)))
  lone (q ∷ ts) (suc i) p z at o =
      rw (h q (omega (arith, total-get_elem? w ts i p at)), lone ts i p (omega arith) at o) refl

-- A task outside of a part moves outside of it.
pub gather-set :
    (f : Phase → List ℕ) (ts : List Phase) (i : ℕ) (p q : Phase)
    → get_elem? ts i ≡ some p
    → f p ≡ []
    → f q ≡ []
    → gather f (set ts i q) ≡ gather f ts
gather-set f [] i p q at a b = refl
gather-set f (r ∷ ts) zero p q at a b =
    let e : r ≡ p = cc at in ap (λ l. l ++ gather f ts) (b ∙ sym (ap f e ∙ a))
gather-set f (r ∷ ts) (suc i) p q at a b = ap (λ l. f r ++ l) (gather-set f ts i p q at a b)

pub not_sending : (p : Phase) → is_sending p ≡ 0 → sending_of p ≡ []
not_sending outside h = refl
not_sending (stepped d) h = refl
not_sending (sending d) h = absurd (omega arith)

pub not_stepped : (p : Phase) → is_stepped p ≡ 0 → stepped_of p ≡ []
not_stepped outside h = refl
not_stepped (stepped d) h = absurd (omega arith)
not_stepped (sending d) h = refl
