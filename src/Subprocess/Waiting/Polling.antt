-- ===== src/Subprocess/Waiting/Polling.antt =====
-- What `poll` keeps of a process: what Popen has seen is the exit, and the descriptor is closed once.
use tonio.Prelude.{
  suc, ◌≡◌, ◌≢◌, refl, sym, ap, ◌∙◌, Bool, true, false, Option, none, some, if◌then◌else◌,
}
use tonio.Subprocess.Waiting.{
  Status, alive, blocked, attribute_error, returned, Process, seen, close_from, close_pidfd,
  close_if, poll,
}

-- What Popen has seen is the exit; the descriptor is closed once, when something was seen.
pub record Fits (p : Process) : Type 0 where
  pub known : (s : Status) → p.returncode ≡ some s → p.exited ≡ some s
  pub closed : p.pidfd ≡ false → p.returncode ≢ none
  pub counted : p.closes ≡ (if p.pidfd then 0 else 1)
  pub ended : (s : Status) → p.phase ≡ returned s → (p.returncode ≡ some s) × (p.pidfd ≡ false)
  pub unseen : p.phase ≡ alive → p.returncode ≡ none
  pub safe : (p.phase ≢ blocked) × (p.phase ≢ attribute_error)

close_from-Fits :
    (b : Bool) (p : Process) → p.pidfd ≡ b → Fits p → p.returncode ≢ none → Fits (close_from b p)
unfolding close_from
close_from-Fits true p q v h = record {
  known = v.known;
  closed = λ z. h;
  counted = ap suc (v.counted ∙ ap (λ b. if b then 0 else 1) q);
  ended = λ s z. ((v.ended s z).0, refl);
  unseen = v.unseen;
  safe = v.safe;
}
close_from-Fits false p q v h = v

shut : (b : Bool) (p : Process) → p.pidfd ≡ b → (close_from b p).pidfd ≡ false
unfolding close_from
shut true p q = refl
shut false p q = q

pub seen-known :
    (r x : Option Status)
    → ((s : Status) → r ≡ some s → x ≡ some s)
    → (s : Status) → seen r x ≡ some s
    → x ≡ some s
unfolding seen
seen-known (some t) x k s h = k s h
seen-known none x k s h = h

seen-keeps : (r x : Option Status) (s : Status) → r ≡ some s → seen r x ≡ some s
unfolding seen
seen-keeps (some t) x s h = h
seen-keeps none x s h = absurd (cc h)

pub seen-none : (r x : Option Status) → seen r x ≡ none → (r ≡ none) × (x ≡ none)
unfolding seen
seen-none (some t) x h = absurd (cc h)
seen-none none x h = (refl, h)

-- Popen sees an exit that is the kernel's.
see-Fits :
    (o : Option Status) (p : Process)
    → seen p.returncode p.exited ≡ o
    → p.phase ≢ alive
    → Fits p
    → Fits (record p { returncode = o })
see-Fits o p q a v = record {
  known = λ s z. seen-known p.returncode p.exited v.known s (q ∙ z);
  closed = λ z y. v.closed z (seen-none p.returncode p.exited (q ∙ y)).0;
  counted = v.counted;
  ended = λ s z. let (r, f) = v.ended s z in (sym q ∙ seen-keeps p.returncode p.exited s r, f);
  unseen = λ z. absurd (a z);
  safe = v.safe;
}

close_if-Fits : (o : Option Status) (p : Process) → p.returncode ≡ o → Fits p → Fits (close_if o p)
unfolding close_if close_pidfd
close_if-Fits none p q v = v
close_if-Fits (some s) p q v = close_from-Fits p.pidfd p refl v (λ z. cc (q, z))

rest_kept :
    (b : Bool) (p : Process)
    → let q = close_from b p in
      (q.returncode ≡ p.returncode) × (q.exited ≡ p.exited) × (q.phase ≡ p.phase)
unfolding close_from
rest_kept true p = (refl, refl, refl)
rest_kept false p = (refl, refl, refl)

pub poll-Fits : (p : Process) → p.phase ≢ alive → Fits p → Fits (poll p)
unfolding poll
poll-Fits p a v =
    let o = seen p.returncode p.exited in
    close_if-Fits o (record p { returncode = o }) refl (see-Fits o p refl a v)

close_if-rest :
    (o : Option Status) (p : Process)
    → let q = close_if o p in
      (q.returncode ≡ p.returncode)
      × (q.exited ≡ p.exited)
      × (q.phase ≡ p.phase)
      × (o ≢ none → q.pidfd ≡ false)
unfolding close_if close_pidfd
close_if-rest none p = (refl, refl, refl, λ h. absurd (h refl))
close_if-rest (some s) p =
    let (r, x, f) = rest_kept p.pidfd p in (r, x, f, λ h. shut p.pidfd p refl)

-- Behind `poll`: its result, and that the descriptor is closed if there is one.
pub poll-rest :
    (p : Process)
    → let q = poll p in
      let o = seen p.returncode p.exited in
      (q.returncode ≡ o)
      × (q.exited ≡ p.exited)
      × (q.phase ≡ p.phase)
      × (o ≢ none → q.pidfd ≡ false)
unfolding poll
poll-rest p = let o = seen p.returncode p.exited in close_if-rest o (record p { returncode = o })
