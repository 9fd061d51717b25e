-- ===== src/Runtime/Schedule/Tokens.antt =====
-- Who holds the tokens of speculation.
use tonio.Prelude.{
  ℕ, suc, ◌+◌, ◌-◌, ◌≡◌, refl, Bool, true, false, not, Option, none, some, get_elem?, set, ◌==◌,
  if◌then◌else◌, one_if, total, total-set, total-get_elem?, arith, get_elem?-set_self,
}
use tonio.Runtime.Schedule.{
  Place, scanning, advertised, rescanning, parked, waking, Worker, System, clear_idle, may_wake,
  resign, find_from, miss_from, return_from,
}

abbrev pub token_at : Place → Bool → ℕ
token_at (scanning b) f = one_if b
token_at (advertised b) f = one_if b + one_if (not f)
token_at rescanning f = one_if (not f)
token_at parked f = one_if (not f)
token_at (waking j) f = 1

-- The tokens of a worker: one while it speculates or wakes another, and one if its flag was claimed while
-- it was idle.
abbrev pub token : Worker → ℕ
token w = token_at w.place w.idle

-- A producer has one in `wake_idle`.
abbrev pub waker : Option ℕ → ℕ
waker none = 0
waker (some j) = 1

abbrev pub flag : Worker → ℕ
flag w = one_if w.idle

abbrev pub odd_at : Place → Bool → ℕ
odd_at (scanning b) f = one_if f
odd_at (waking j) f = one_if f
odd_at _ f = 0

-- A worker that is not idle has no flag set.
abbrev pub odd : Worker → ℕ
odd w = odd_at w.place w.idle

-- With so many tokens that a worker is about to give back.
pub record IsSound (e : ℕ) (s : System) : Type 0 where
  pub tokens : s.speculation ≡ e + total token s.workers + total waker s.producers
  pub flags : s.added + s.adding ≡ total flag s.workers + s.owed + s.subtracted
  pub calm : total odd s.workers ≡ 0

-- Worker `i` changes, and the counters with it.
put-IsSound :
    (e d i a x y : ℕ) (w u : Worker) (s : System)
    → get_elem? s.workers i ≡ some w
    → a + token w + d ≡ s.speculation + token u + e
    → x + flag w + s.owed ≡ s.adding + flag u + y
    → odd u ≡ 0
    → IsSound d s
    → IsSound e (record s { workers = set s.workers i u; speculation = a; adding = x; owed = y })
put-IsSound e d i a x y w u s at t f o v = record {
  tokens = omega (
    arith,
    v.tokens,
    t,
    total-set token s.workers i w u at,
    total-get_elem? token s.workers i w at,
  );
  flags =
      omega (
        arith,
        v.flags,
        f,
        total-set flag s.workers i w u at,
        total-get_elem? flag s.workers i w at,
      );
  calm =
      omega
        (arith, v.calm, o, total-set odd s.workers i w u at, total-get_elem? odd s.workers i w at);
}

clear_idle-IsSound :
    (e : ℕ) (f : Bool) (i : ℕ) (p q : Place) (l : Bool) (s : System)
    → get_elem? s.workers i ≡ some (record { place = p; idle = f })
    → token_at q false + (if f then 0 else one_if l) + e ≡ token_at p f
    → odd_at q false ≡ 0
    → IsSound 0 s
    → IsSound e (clear_idle f i q l s)
unfolding clear_idle
clear_idle-IsSound e true i p q l s at t o v =
    let w : Worker = record { place = p; idle = true } in
    put-IsSound e 0 i s.speculation s.adding (suc s.owed) w (record { place = q; idle = false }) s
      at (omega (arith, t)) (omega arith) o v
clear_idle-IsSound e false i p q l s at t o v =
    let w : Worker = record { place = p; idle = false } in
    put-IsSound e 0 i (if l then s.speculation - 1 else s.speculation) s.adding s.owed w
      (record { place = q; idle = false }) s at
      (ground (arith, t, v.tokens, total-get_elem? token s.workers i w at)) (omega arith) o v

resign-IsSound :
    (i : ℕ) (f : Bool) (s : System)
    → get_elem? s.workers i ≡ some (record { place = scanning false; idle = f })
    → IsSound 1 s
    → IsSound 0 (resign i s)
unfolding resign
resign-IsSound i f s at v =
    let w : Worker = record { place = scanning false; idle = f } in
    let u : Worker = record { place = waking 0; idle = false } in
    let t = record s { speculation = s.speculation - 1 } in
    let plain : IsSound 0 t = record {
      tokens = omega (arith, v.tokens);
      flags = v.flags;
      calm = v.calm;
    } in
    let wake = record t { speculation = 1; workers = set s.workers i u } in
    elim (s.speculation == 1)
        as (λ b.
          ((s.speculation == 1) ≡ b)
          → IsSound 0 (if b then if may_wake t then wake else t else t)) [
            | true ↦ λ h.
                let woken : IsSound 0 wake =
                  put-IsSound 0 1 i 1 s.adding s.owed w u s at (ground (arith, h))
                    (ground (arith, v.calm, total-get_elem? odd s.workers i w at)) refl v in
                elim (may_wake t) as (λ c. IsSound 0 (if c then wake else t)) [
                  | true ↦ woken
                  | false ↦ plain
                ]
            | false ↦ λ h. plain
          ]
      refl

get-set :
    (i : ℕ) (u w : Worker) (s : System)
    → get_elem? s.workers i ≡ some w
    → get_elem? (set s.workers i u) i ≡ some u
get-set i u w s at = get_elem?-set_self s.workers i u w at

cleared-at :
    (f : Bool) (i : ℕ) (q : Place) (l : Bool) (w : Worker) (s : System)
    → get_elem? s.workers i ≡ some w
    → get_elem? (clear_idle f i q l s).workers i ≡ some (record { place = q; idle = false })
unfolding clear_idle
cleared-at true i q l w s at = get-set i (record { place = q; idle = false }) w s at
cleared-at false i q l w s at = get-set i (record { place = q; idle = false }) w s at

pub find-IsSound :
    (p : Place) (f : Bool) (i : ℕ) (s : System)
    → get_elem? s.workers i ≡ some (record { place = p; idle = f })
    → IsSound 0 s
    → IsSound 0 (find_from (some (record { place = p; idle = f })) i s)
unfolding find_from
find-IsSound (scanning false) f i s at v = v
find-IsSound (scanning true) f i s at v =
    let w : Worker = record { place = scanning true; idle = f } in
    let u : Worker = record { place = scanning false; idle = f } in
    resign-IsSound i f _ (get-set i u w s at) (
      put-IsSound 1 0 i s.speculation s.adding s.owed w u s at (omega arith) refl
        (omega (arith, v.calm, total-get_elem? odd s.workers i w at)) v)
find-IsSound (advertised false) f i s at v =
    clear_idle-IsSound 0 f i (advertised false) (scanning false) true s at (ground arith) refl v
find-IsSound (advertised true) f i s at v =
    resign-IsSound i false _ (cleared-at f i (scanning false) true _ s at)
      (clear_idle-IsSound 1 f i (advertised true) (scanning false) true s at (ground arith) refl v)
find-IsSound rescanning f i s at v =
    clear_idle-IsSound 0 f i rescanning (scanning false) true s at (ground arith) refl v
find-IsSound parked f i s at v = v
find-IsSound (waking j) f i s at v = v

pub miss-IsSound :
    (p : Place) (f : Bool) (i : ℕ) (s : System)
    → get_elem? s.workers i ≡ some (record { place = p; idle = f })
    → IsSound 0 s
    → IsSound 0 (miss_from (some (record { place = p; idle = f })) i s)
unfolding miss_from
miss-IsSound (scanning b) f i s at v =
    let w : Worker = record { place = scanning b; idle = f } in
    put-IsSound 0 0 i s.speculation (suc s.adding) s.owed w
      (record { place = advertised b; idle = true }) s at (omega arith)
      (omega (arith, v.calm, total-get_elem? odd s.workers i w at)) refl v
miss-IsSound (advertised false) f i s at v =
    put-IsSound 0 0 i s.speculation s.adding s.owed (record { place = advertised false; idle = f })
      (record { place = parked; idle = f }) s at (omega arith) refl refl v
miss-IsSound (advertised true) f i s at v =
    let w : Worker = record { place = advertised true; idle = f } in
    put-IsSound 0 0 i (s.speculation - 1) s.adding s.owed w
      (record { place = rescanning; idle = f }) s at
      (omega (arith, v.tokens, total-get_elem? token s.workers i w at)) refl refl v
miss-IsSound rescanning f i s at v =
    put-IsSound 0 0 i s.speculation s.adding s.owed (record { place = rescanning; idle = f })
      (record { place = parked; idle = f }) s at (omega arith) refl refl v
miss-IsSound parked f i s at v = v
miss-IsSound (waking j) f i s at v = v

pub return-IsSound :
    (p : Place) (f : Bool) (i : ℕ) (s : System)
    → get_elem? s.workers i ≡ some (record { place = p; idle = f })
    → IsSound 0 s
    → IsSound 0 (return_from (some (record { place = p; idle = f })) i s)
unfolding return_from
return-IsSound (scanning b) f i s at v = v
return-IsSound (advertised b) f i s at v = v
return-IsSound rescanning f i s at v = v
return-IsSound parked f i s at v =
    clear_idle-IsSound 0 f i parked (scanning (not f)) false s at (ground arith) refl v
return-IsSound (waking j) f i s at v = v
