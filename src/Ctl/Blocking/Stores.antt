-- ===== src/Ctl/Blocking/Stores.antt =====
-- What the places of a blocking task hold when its coroutine fetches, and when it is aborted.
use tonio.Prelude.{◌≡◌, ◌⊎◌, inl, inr, refl, sym, ap, ◌∙◌, Bool, true, false, Option, none, some}
use tonio.Ctl.Blocking.{
  queued, cancelled, Ret, ok, err, Thread, idle, calling, filled, over, returned, tagged, gives,
  raises, unwound, Phase, waiting, waiting_again, ended, Task, is_err, abort, unpacked,
}
use tonio.Ctl.Blocking.Places.{Fields, Slots, answer, Right}

module _ {V E : Type 0} (abort_error : E) where
  -- The call has ended: its value, or nothing yet.
  answered-Right :
      (c : Bool) (r : Ret V E) (b : Bool) (x : Option (Ret V E)) (t : Task V E)
      → some (is_err r) ≡ some b
      → answer t.thread ≡ some r
      → (x ≡ some r) ⊎ ((c ≡ true) × (x ≡ none))
      → Right abort_error c (ended (unpacked abort_error b x)) t
  unfolding is_err unpacked
  answered-Right c (ok v) false x t q a h = (v, a, h)
  answered-Right c (ok v) true x t q a h = absurd (cc q)
  answered-Right c (err e) false x t q a h = absurd (cc q)
  answered-Right c (err e) true x t q a h = inl (e, a, h)

  never-Right :
      (c b : Bool) (x : Option (Ret V E)) (t : Task V E)
      → some true ≡ some b
      → t.state ≡ cancelled
      → answer t.thread ≡ none
      → x ≡ some (err abort_error)
      → c ≡ true
      → Right abort_error c (ended (unpacked abort_error b x)) t
  unfolding unpacked
  never-Right c true x t q st a h k = inr (st, a, h, k)
  never-Right c false x t q st a h k = absurd (cc q)

  -- The end of a coroutine that has fetched a result.
  pub fetched-Right :
      (c b : Bool) (th : Thread V E) (t : Task V E)
      → th ≡ t.thread
      → Slots abort_error th t
      → t.tag ≡ some b
      → (c ≡ true) ⊎ (t.event ≡ true)
      → (t.state ≡ cancelled → c ≡ true)
      → Right abort_error c (ended (unpacked abort_error b t.value)) t
  unfolding Slots Fields
  fetched-Right c b idle t q (inl (st, g, v, e)) tag w k = absurd (cc (g, tag))
  fetched-Right c b idle t q (inr (st, g, v, e)) tag w k =
      never-Right c b t.value t (sym g ∙ tag) st (ap answer (sym q)) v (k st)
  fetched-Right c b calling t q (st, g, v, e) tag w k = absurd (cc (g, tag))
  fetched-Right c b (returned r) t q (st, g, v, e) tag w k = absurd (cc (g, tag))
  fetched-Right c b (tagged r) t q (st, g, v, e) tag (inl w) k =
      answered-Right c r b t.value t (sym g ∙ tag) (ap answer (sym q)) (inr (w, v))
  fetched-Right c b (tagged r) t q (st, g, v, e) tag (inr w) k = absurd (cc (e, w))
  fetched-Right c b (filled r) t q (st, g, v, e) tag w k =
      answered-Right c r b t.value t (sym g ∙ tag) (ap answer (sym q)) (inl v)
  fetched-Right c b (over (some r)) t q (st, g, v, e) tag w k =
      answered-Right c r b t.value t (sym g ∙ tag) (ap answer (sym q)) (inl v)
  fetched-Right c b (over none) t q (st, g, v, e) tag w k =
      never-Right c b t.value t (sym g ∙ tag) st (ap answer (sym q)) v (k st)

  pub Right-more :
      (c : Bool) (p : Phase V E) (t : Task V E)
      → Right abort_error c p t
      → Right abort_error true p t
  Right-more c waiting t h = tt
  Right-more c waiting_again t h = tt
  Right-more c (ended (gives x)) t (v, a, inl h) = (v, a, inl h)
  Right-more c (ended (gives x)) t (v, a, inr h) = (v, a, inr (refl, h.1))
  Right-more c (ended (raises x)) t (inl (e, a, inl h)) = inl (e, a, inl h)
  Right-more c (ended (raises x)) t (inl (e, a, inr h)) = inl (e, a, inr (refl, h.1))
  Right-more c (ended (raises x)) t (inr (st, a, h, k)) = inr (st, a, h, refl)
  Right-more c (ended unwound) t h = refl

  -- `Slots` reads four fields.
  pub Slots-agree :
      (th : Thread V E) (t u : Task V E)
      → Fields u t.state t.tag t.value t.event
      → Slots abort_error th t
      → Slots abort_error th u
  unfolding Slots Fields
  Slots-agree idle t u (a, b, c, d) (inl (st, g, v, e)) = inl (a ∙ st, b ∙ g, c ∙ v, d ∙ e)
  Slots-agree idle t u (a, b, c, d) (inr (st, g, v, e)) = inr (a ∙ st, b ∙ g, c ∙ v, d ∙ e)
  Slots-agree calling t u (a, b, c, d) (st, g, v, e) = (a ∙ st, b ∙ g, c ∙ v, d ∙ e)
  Slots-agree (returned r) t u (a, b, c, d) (st, g, v, e) = (a ∙ st, b ∙ g, c ∙ v, d ∙ e)
  Slots-agree (tagged r) t u (a, b, c, d) (st, g, v, e) = (a ∙ st, b ∙ g, c ∙ v, d ∙ e)
  Slots-agree (filled r) t u (a, b, c, d) (st, g, v, e) = (a ∙ st, b ∙ g, c ∙ v, d ∙ e)
  Slots-agree (over (some r)) t u (a, b, c, d) (st, g, v, e) = (a ∙ st, b ∙ g, c ∙ v, d ∙ e)
  Slots-agree (over none) t u (a, b, c, d) (st, g, v, e) = (a ∙ st, b ∙ g, c ∙ v, d ∙ e)

  -- `abort` ends a task that is still queued.
  pub queued-Slots :
      (th : Thread V E) (t : Task V E)
      → queued ≡ t.state
      → Slots abort_error th t
      → Slots abort_error th (abort abort_error queued t)
  unfolding abort Slots Fields
  queued-Slots idle t q h = inr (refl, refl, refl, refl)
  queued-Slots calling t q (st, g, v, e) = absurd (cc (q, st))
  queued-Slots (returned r) t q (st, g, v, e) = absurd (cc (q, st))
  queued-Slots (tagged r) t q (st, g, v, e) = absurd (cc (q, st))
  queued-Slots (filled r) t q (st, g, v, e) = absurd (cc (q, st))
  queued-Slots (over (some r)) t q (st, g, v, e) = absurd (cc (q, st))
  queued-Slots (over none) t q (st, g, v, e) = absurd (cc (q, st))

  -- An event is set only once the result is stored.
  pub stored :
      (th : Thread V E) (t : Task V E) → Slots abort_error th t → t.tag ≡ none → t.event ≡ true → ⊥
  unfolding Slots Fields
  stored idle t (inl (st, g, v, e)) n w = cc (e, w)
  stored idle t (inr (st, g, v, e)) n w = cc (g, n)
  stored calling t (st, g, v, e) n w = cc (e, w)
  stored (returned r) t (st, g, v, e) n w = cc (e, w)
  stored (tagged r) t (st, g, v, e) n w = cc (e, w)
  stored (filled r) t (st, g, v, e) n w = cc (e, w)
  stored (over (some r)) t (st, g, v, e) n w = cc (g, n)
  stored (over none) t (st, g, v, e) n w = cc (g, n)
