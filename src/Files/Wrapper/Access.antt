-- ===== src/Files/Wrapper/Access.antt =====
-- What the attributes of a wrapped file give, and the lines of a file.
use tonio.Prelude.{
  ◌≡◌, ◌⊎◌, inl, inr, refl, sym, ap, subst, arith, ◌∙◌, Bool, true, false, ◌&&◌, ◌||◌, Option, none,
  some, List, [], ◌∷◌, ◌++◌, if◌then◌else◌, ◌==◌, map, Bool-cases,
}
use tonio.Files.Wrapper.{
  Name, close, read, write, is_sync, is_async, Member, FileObject, IoWrapper, Got, own, threaded,
  missing, keep, wrap_method, own_or_missing, get_missing, get_from, get_attr, has_attr, listed,
  has_callable, wrap_file, lines, number,
}

and_true : (a b : Bool) → (a && b) ≡ true → (a ≡ true) × (b ≡ true)
and_true true b h = (refl, h)
and_true false b h = absurd (cc h)

or_cases : (a b : Bool) → (a || b) ≡ true → (a ≡ true) ⊎ (b ≡ true)
or_cases true b h = inl refl
or_cases false b h = inr h

abbrev pub found : Got → Bool
found (own m) = true
found (threaded m) = true
found missing = false

found-wrap_method :
    (n : Name) (o : Option Member) (w : IoWrapper) → found (wrap_method n o w).0 ≡ has_attr o
unfolding wrap_method has_attr
found-wrap_method n none w = refl
found-wrap_method n (some m) w = refl

found-own_or_missing : (o : Option Member) → found (own_or_missing o) ≡ has_attr o
unfolding own_or_missing has_attr
found-own_or_missing none = refl
found-own_or_missing (some m) = refl

or_and : (a b : Bool) → a ≡ (a || b && a)
or_and true b = refl
or_and false true = refl
or_and false false = refl

found-get_missing : (n : Name) (w : IoWrapper) → found (get_missing n w).0 ≡ listed w n
unfolding get_missing listed
found-get_missing n w = elim (Bool-cases (is_sync n)) [
  | inl s ↦
      rw (s, get_missing, listed)
        (found-own_or_missing (w.wrapped n) ∙ or_and (has_attr (w.wrapped n)) (is_async n))
  | inr s ↦ elim (Bool-cases (is_async n)) [
    | inl a ↦ rw (s, a, get_missing, listed) (found-wrap_method n (w.wrapped n) w)
    | inr a ↦ rw (s, a, get_missing, listed) refl
  ]
]

-- A name that the wrapper has no slot for is found exactly if `__dir__` lists it.
pub listed_found :
    (n : Name) (w : IoWrapper) → w.slots n ≡ none → found (get_attr n w).0 ≡ listed w n
unfolding get_attr get_from
listed_found n w h = ap (λ o. found (get_from o n w).0) h ∙ found-get_missing n w

again_wrapped :
    (o : Option Member) (n : Name) (w : IoWrapper)
    → w.slots n ≡ none
    → get_missing n w ≡ wrap_method n o w
    → get_attr n (wrap_method n o w).1 ≡ wrap_method n o w
unfolding get_attr get_from wrap_method keep
again_wrapped none n w h e = ap (λ o. get_from o n w) h ∙ e
again_wrapped (some m) n w h e =
    let same : (number n == number n) ≡ true = ground arith in
    ap (λ b. get_from (if b then some m else w.slots n) n (keep n m w)) same

stays :
    (n : Name) (w : IoWrapper) (g : Got)
    → w.slots n ≡ none
    → get_missing n w ≡ (g, w)
    → get_attr n (get_missing n w).1 ≡ get_missing n w
unfolding get_attr get_from
stays n w g h e = ap (λ r. get_attr n r.1) e ∙ ap (λ o. get_from o n w) h

again_missing :
    (n : Name) (w : IoWrapper) → w.slots n ≡ none → get_attr n (get_missing n w).1 ≡ get_missing n w
unfolding get_attr get_from
again_missing n w h = elim (Bool-cases (is_sync n)) [
  | inl s ↦ stays n w (own_or_missing (w.wrapped n)) h (rw (s, get_missing) refl)
  | inr s ↦ elim (Bool-cases (is_async n)) [
    | inl a ↦
        let e : get_missing n w ≡ wrap_method n (w.wrapped n) w = rw (s, a, get_missing) refl in
        ap (λ r. get_attr n r.1) e ∙ again_wrapped (w.wrapped n) n w h e ∙ sym e
    | inr a ↦ stays n w missing h (rw (s, a, get_missing) refl)
  ]
]

again_from :
    (o : Option Member) (n : Name) (w : IoWrapper)
    → w.slots n ≡ o
    → get_attr n (get_from o n w).1 ≡ get_from o n w
unfolding get_attr get_from
again_from (some m) n w h = ap (λ o. get_from o n w) h
again_from none n w h = again_missing n w h

-- A second access to an attribute gives the same as the first, and changes nothing.
pub get_attr_again : (n : Name) (w : IoWrapper) → get_attr n (get_attr n w).1 ≡ get_attr n w
unfolding get_attr
get_attr_again n w = again_from (w.slots n) n w refl

abbrev fresh : FileObject → IoWrapper
fresh f = record { wrapped = f; slots = λ n. none }

threaded_if :
    (n : Name) (f : FileObject) (o : Option Member)
    → f n ≡ o
    → has_callable o ≡ true
    → get_missing n (fresh f) ≡ wrap_method n (f n) (fresh f)
    → (m : Member) × ((get_attr n (fresh f)).0 ≡ threaded m)
unfolding get_attr get_from wrap_method has_callable
threaded_if n f none q h e = absurd (cc h)
threaded_if n f (some m) q h e = (m, ap (λ r. r.0) e ∙ ap (λ o. (wrap_method n o (fresh f)).0) q)

fresh_if :
    (b : Bool) (f : FileObject) (w : IoWrapper)
    → (if b then some (fresh f) else none) ≡ some w
    → (b ≡ true) × (fresh f ≡ w)
fresh_if true f w h = (refl, cc h)
fresh_if false f w h = absurd (cc h)

-- A file that `wrap_file` accepts can be closed, and read or written, in a thread.
pub wrap_file_works :
    (f : FileObject) (w : IoWrapper)
    → wrap_file f ≡ some w
    → ((m : Member) × ((get_attr close w).0 ≡ threaded m))
      × (((m : Member) × ((get_attr read w).0 ≡ threaded m))
          ⊎ ((m : Member) × ((get_attr write w).0 ≡ threaded m)))
unfolding wrap_file get_missing
wrap_file_works f w h =
    let (test, made) = fresh_if _ f w h in
    let (closes, moves) = and_true (has_callable (f close)) _ test in
    subst
      (λ w.
        ((m : Member) × ((get_attr close w).0 ≡ threaded m))
        × (((m : Member) × ((get_attr read w).0 ≡ threaded m))
            ⊎ ((m : Member) × ((get_attr write w).0 ≡ threaded m))))
      made
      (
        threaded_if close f (f close) refl closes refl,
        elim (or_cases (has_callable (f read)) _ moves) [
          | inl r ↦ inl (threaded_if read f (f read) refl r refl)
          | inr r ↦ inr (threaded_if write f (f write) refl r refl)
        ],
      )

-- Iteration gives the lines before the first empty one.
pub lines_before :
    {A : Type 0} (empty : A → Bool) (xs ys : List A) (e : A)
    → map empty xs ≡ map (λ x. false) xs
    → empty e ≡ true
    → lines empty (xs ++ e ∷ ys) ≡ xs
unfolding lines
lines_before empty [] ys e h q = rw q refl
lines_before empty (x ∷ xs) ys e h q =
    let first : empty x ≡ false = cc h in
    let rest = lines_before empty xs ys e (cc h) q in rw first (ap (◌∷◌ x) rest)
