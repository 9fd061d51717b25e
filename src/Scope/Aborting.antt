-- ===== src/Scope/Aborting.antt =====
-- The loop of `_exit` over the tracked tasks: which of them it aborts.
use tonio.Prelude.{
  unset, unset-update, ℕ, ◌≤◌, ◌≡◌, ◌≢◌, refl, sym, ap, ◌∙◌, fun_ext, Bool, true, false, List, [],
  ◌∷◌, ◌++◌, append_assoc, append-nil, arith, ◌==◌, count, update, Bool-cases, inl, inr,
}
use tonio.Sync.Waiters.{set_event}
use tonio.Scope.{Scope, abort_unset, abort_all}

pub count-unset : (f : ℕ → Bool) (d : ℕ) (es : List ℕ) → count d (unset f es) ≤ count d es
count-unset f d [] = omega arith
count-unset f d (e ∷ es) = ground (arith, count-unset f d es)

unset-cons :
    (f : ℕ → Bool) (d : ℕ) (es : List ℕ) → unset f (d ∷ []) ++ unset f es ≡ unset f (d ∷ es)
unset-cons f d es = elim (Bool-cases (f d)) [ inl h ↦ rw h refl | inr h ↦ rw h refl ]

count-head : (d : ℕ) (es : List ℕ) → count d (d ∷ es) ≤ 1 → count d es ≡ 0
count-head d es h = ground arith

-- One round of a cancelled scope sets the event, whether it was set or not.
abort_unset-lem :
    (d : ℕ) (s : Scope)
    → let t = abort_unset true d s in
      (t.aborted ≡ s.aborted ++ unset s.events.flag (d ∷ []))
      × ((e : ℕ) → t.events.flag e ≡ update s.events.flag d true e)
      × (t.events.made ≡ s.events.made)
      × (t.stack ≡ s.stack)
      × (t.started ≡ s.started)
unfolding abort_unset set_event
abort_unset-lem d s = elim (Bool-cases (s.events.flag d)) [
  | inl h ↦ rw h (
    sym (append-nil s.aborted),
    λ e. elim (Bool-cases (d == e)) [
      | inl q ↦ rw q (ap s.events.flag (ground (arith, q)) ∙ h)
      | inr q ↦ rw q refl
    ],
    refl,
    refl,
    refl,
  )
  | inr h ↦ rw h (refl, λ e. refl, refl, refl, refl)
]

pub abort_all-false : (es : List ℕ) (s : Scope) → abort_all false es s ≡ s
unfolding abort_all abort_unset
abort_all-false [] s = refl
abort_all-false (e ∷ es) s = abort_all-false es s

-- The loop of a cancelled scope touches the events of its list that are not set, and nothing else.
pub abort_all-true :
    (es : List ℕ) (s : Scope)
    → ((e : ℕ) → count e es ≤ 1)
    → let t = abort_all true es s in
      (t.aborted ≡ s.aborted ++ unset s.events.flag es)
      × ((e : ℕ) → s.events.flag e ≡ true → t.events.flag e ≡ true)
      × ((e : ℕ) → count e es ≢ 0 → t.events.flag e ≡ true)
      × (t.events.made ≡ s.events.made)
      × (t.stack ≡ s.stack)
      × (t.started ≡ s.started)
unfolding abort_all
abort_all-true [] s h =
    (sym (append-nil s.aborted), λ e f. f, λ e g. absurd (g refl), refl, refl, refl)
abort_all-true (d ∷ es) s h =
    let (a, f, m, st, sd) = abort_unset-lem d s in
    let (a', f', g', m', st', sd') =
      abort_all-true es (abort_unset true d s) (λ e. omega (arith, h e)) in
    let same =
      ap (λ k. unset k es) (fun_ext f) ∙ unset-update s.events.flag d es (count-head d es (h d)) in
    (
      rw (a', a, same)
          (append_assoc s.aborted _ _ ∙ ap (λ l. s.aborted ++ l) (unset-cons s.events.flag d es)),
      λ e k. f' e (f e ∙ ground arith),
      λ e k. elim (Bool-cases (d == e)) [
        | inl q ↦ f' e (f e ∙ ground arith)
        | inr q ↦ g' e (λ z. k (ground arith))
      ],
      m' ∙ m,
      st' ∙ st,
      sd' ∙ sd,
    )
