-- ===== src/Runtime/Schedule/Visits.antt =====
-- What a visit of an idle flag by `wake_idle` does to the tokens.
use tonio.Prelude.{
  ℕ, suc, ◌+◌, ◌-◌, ◌≡◌, ◌≢◌, ◌≤◌, refl, ap, ◌∙◌, Bool, true, false, Option, none, some, get_elem?,
  set, if◌then◌else◌, one_if, total, total-set, total-get_elem?, arith, get_elem?-set_ne,
}
use tonio.Runtime.Schedule.{
  Place, scanning, advertised, rescanning, parked, waking, Worker, System, claimed, missed,
  visit_from, visited, wake_from, produced,
}
use tonio.Runtime.Schedule.Tokens.{token_at, token, waker, flag, odd_at, odd, IsSound}

-- A worker whose flag is claimed gets a token.
claim_token : (p : Place) → odd_at p true ≡ 0 → token_at p false ≡ suc (token_at p true)
claim_token (scanning b) o = absurd (omega (arith, o))
claim_token (advertised b) o = omega arith
claim_token rescanning o = refl
claim_token parked o = refl
claim_token (waking j) o = absurd (omega (arith, o))

-- Behind a visit of a flag by one who has left `wake_idle`, in the counts of the others.
record Visited (s t : System) (gone : ℕ) : Type 0 where
  producers : t.producers ≡ s.producers
  tokens : t.speculation + total token s.workers + gone ≡ s.speculation + total token t.workers
  flags : t.added + t.adding ≡ total flag t.workers + t.owed + t.subtracted
  calm : total odd t.workers ≡ 0

claim-Visited :
    (p : Place) (j : ℕ) (s : System)
    → get_elem? s.workers j ≡ some (record { place = p; idle = true })
    → IsSound 0 s
    → Visited s
        (record s {
          workers = set s.workers j (record { place = p; idle = false });
          owed = suc s.owed;
        })
        1
claim-Visited p j s at v =
    let w : Worker = record { place = p; idle = true } in
    let u : Worker = record { place = p; idle = false } in
    let o : odd_at p true ≡ 0 = omega (arith, v.calm, total-get_elem? odd s.workers j w at) in
    let n : odd_at p false ≡ 0 = calm_at p in
    record {
      producers = refl;
      tokens = omega (arith, claim_token p o, total-set token s.workers j w u at);
      flags = omega (
        arith,
        v.flags,
        total-set flag s.workers j w u at,
        total-get_elem? flag s.workers j w at,
      );
      calm = omega (arith, v.calm, n, total-set odd s.workers j w u at);
    }
  where
    calm_at : (p : Place) → odd_at p false ≡ 0
    calm_at (scanning b) = refl
    calm_at (advertised b) = refl
    calm_at rescanning = refl
    calm_at parked = refl
    calm_at (waking j) = refl

-- A producer is at another place.
producer-IsSound :
    (k gone : ℕ) (x y : Option ℕ) (s t : System)
    → get_elem? s.producers k ≡ some x
    → waker x ≡ waker y + gone
    → Visited s t gone
    → IsSound 0 s
    → IsSound 0 (record t { producers = set t.producers k y })
producer-IsSound k gone x y s t at g w v = record {
  tokens = omega (
    arith,
    v.tokens,
    w.tokens,
    g,
    ap (λ ps. total waker (set ps k y)) w.producers,
    total-set waker s.producers k x y at,
  );
  flags = w.flags;
  calm = w.calm;
}

end-Visited :
    (s : System)
    → 1 ≤ s.speculation
    → IsSound 0 s
    → Visited s (record s { speculation = s.speculation - 1 }) 1
end-Visited s h v = record {
  producers = refl;
  tokens = omega (arith, h);
  flags = v.flags;
  calm = v.calm;
}

miss-Visited : (s : System) → IsSound 0 s → Visited s s 0
miss-Visited s v = record { producers = refl; tokens = omega arith; flags = v.flags; calm = v.calm }

pub go-IsSound :
    (o : Option Worker) (j k : ℕ) (s : System)
    → get_elem? s.workers j ≡ o
    → get_elem? s.producers k ≡ some (some j)
    → IsSound 0 s
    → IsSound 0 (produced k j (visit_from o j s))
unfolding visit_from produced
go-IsSound none j k s at pk v =
    let h : 1 ≤ s.speculation =
      omega (arith, v.tokens, total-get_elem? waker s.producers k (some j) pk) in
    producer-IsSound k 1 (some j) none s _ pk refl (end-Visited s h v) v
go-IsSound (some w) j k s at pk v =
    let missing = producer-IsSound k 0 (some j) (some (suc j)) s s pk refl (miss-Visited s v) v in
    elim w.idle
        as (λ b.
          (w.idle ≡ b)
          → IsSound 0 (
              produced k j (
                if b
                then claimed (record s {
                  workers = set s.workers j (record w { idle = false });
                  owed = suc s.owed;
                })
                else missed s))) [
                  | true ↦ λ e.
                      producer-IsSound k 1 (some j) none s _ pk refl
                        (claim-Visited w.place j s (at ∙ ap (λ b. some (record w { idle = b })) e)
                          v)
                        v
                  | false ↦ λ e. missing
                ]
      refl

-- A worker leaves `wake_idle`, or goes to the next flag.
worker-IsSound :
    (i j m gone : ℕ) (f : Bool) (p : Place) (s t : System)
    → get_elem? t.workers i ≡ some (record { place = waking m; idle = f })
    → 1 ≡ token_at p false + gone
    → odd_at p false ≡ 0
    → Visited s t gone
    → IsSound 0 s
    → IsSound 0 (record t { workers = set t.workers i (record { place = p; idle = false }) })
worker-IsSound i j m gone f p s t at g o w v =
    let x : Worker = record { place = waking m; idle = f } in
    let u : Worker = record { place = p; idle = false } in
    record {
      tokens = omega (
        arith,
        v.tokens,
        w.tokens,
        g,
        ap (λ ps. total waker ps) w.producers,
        total-set token t.workers i x u at,
      );
      flags = omega (
        arith,
        w.flags,
        w.calm,
        total-get_elem? odd t.workers i x at,
        total-set flag t.workers i x u at,
      );
      calm = omega (arith, w.calm, o, total-set odd t.workers i x u at);
    }

visited-IsSound :
    (o : Option Worker) (f : Bool) (i j : ℕ) (s : System)
    → get_elem? s.workers j ≡ o
    → get_elem? s.workers i ≡ some (record { place = waking j; idle = f })
    → IsSound 0 s
    → IsSound 0 (visited i j (visit_from o j s))
unfolding visit_from visited
visited-IsSound none f i j s at it v =
    let x : Worker = record { place = waking j; idle = f } in
    let h : 1 ≤ s.speculation = omega (arith, v.tokens, total-get_elem? token s.workers i x it) in
    worker-IsSound i j j 1 f (scanning false) s (record s { speculation = s.speculation - 1 }) it
      refl refl (end-Visited s h v) v
visited-IsSound (some w) f i j s at it v =
    let x : Worker = record { place = waking j; idle = f } in
    let missing = worker-IsSound i j j 0 f (waking (suc j)) s s it refl refl (miss-Visited s v) v in
    let t = record s { workers = set s.workers j (record w { idle = false }); owed = suc s.owed } in
    elim w.idle
        as (λ b. (w.idle ≡ b) → IsSound 0 (visited i j (if b then claimed t else missed s))) [
          | true ↦ λ e.
              let here = at ∙ ap (λ b. some (record w { idle = b })) e in
              worker-IsSound i j j 1 f (scanning false) s t
                (get_elem?-set_ne s.workers j i _ (apart w.place here) ∙ it) refl refl
                (claim-Visited w.place j s here v) v
          | false ↦ λ e. missing
        ]
      refl
  where
    apart : (p : Place) → get_elem? s.workers j ≡ some (record { place = p; idle = true }) → j ≢ i
    apart p here q =
        let a = ap (λ n. get_elem? s.workers n) q ∙ it in
        let e : f ≡ true = cc (a, here) in
        absurd (
          omega (
            arith,
            v.calm,
            ap one_if e,
            total-get_elem? odd s.workers i (record { place = waking j; idle = f }) it,
          ))

pub wake-IsSound :
    (p : Place) (f : Bool) (i : ℕ) (s : System)
    → get_elem? s.workers i ≡ some (record { place = p; idle = f })
    → IsSound 0 s
    → IsSound 0 (wake_from (some (record { place = p; idle = f })) i s)
unfolding wake_from
wake-IsSound (scanning b) f i s at v = v
wake-IsSound (advertised b) f i s at v = v
wake-IsSound rescanning f i s at v = v
wake-IsSound parked f i s at v = v
wake-IsSound (waking j) f i s at v = visited-IsSound (get_elem? s.workers j) f i j s refl at v
