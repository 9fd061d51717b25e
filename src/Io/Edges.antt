-- ===== src/Io/Edges.antt =====
-- Clearing the readiness after a call that would block loses no edge that came meanwhile.
use tonio.Prelude.{
  ℕ, suc, ◌+◌, ◌%◌, ◌<◌, ◌≡◌, ◌≢◌, refl, true, false, none, List, [], ◌∷◌, arith, length, ◌⊎◌, inl,
  inr, ap, ◌∙◌,
}
use tonio.Io.{Ready, Direction, reading, writing, ScheduledIo, shows, armed_tick, arm, clear, edge}

-- The state after the poller has handled some events.
pub edges : List Ready → ScheduledIo → ScheduledIo
unfolding edge
edges [] io = io
edges (r ∷ rs) io = edges rs (edge r io).2

-- Edges add to the tick, and keep what is shown and what was armed.
record Kept (d : Direction) (n : ℕ) (io io' : ScheduledIo) : Type 0 where
  tick : io'.word.tick ≡ (io.word.tick + n) % 256
  armed : armed_tick d io' ≡ armed_tick d io
  down : io'.word.shutdown ≡ io.word.shutdown
  shown : shows d io.word.ready ≡ true → shows d io'.word.ready ≡ true

edge-Kept : (d : Direction) (r : Ready) (io : ScheduledIo) → Kept d 1 io (edge r io).2
unfolding edge
edge-Kept reading r io = record {
  tick = ground arith;
  armed = ground arith;
  down = ground arith;
  shown = λ h. ground arith;
}
edge-Kept writing r io = record {
  tick = ground arith;
  armed = ground arith;
  down = ground arith;
  shown = λ h. ground arith;
}

edges-Kept :
    (d : Direction) (rs : List Ready) (io : ScheduledIo)
    → io.word.tick < 256
    → Kept d (length rs) io (edges rs io)
unfolding edges
edges-Kept d [] io h = record { tick = omega arith; armed = refl; down = refl; shown = λ s. s }
edges-Kept d (r ∷ rs) io h =
    let a = edge-Kept d r io in
    let b = edges-Kept d rs (edge r io).2 (omega (arith, a.tick)) in
    record {
      tick = omega (arith, a.tick, b.tick);
      armed = b.armed ∙ a.armed;
      down = b.down ∙ a.down;
      shown = λ s. b.shown (a.shown s);
    }

-- A direction is found ready: a flag of it or the shutdown is there, and the tick is remembered.
record Armed (d : Direction) (io io' : ScheduledIo) : Type 0 where
  why : (shows d io.word.ready ≡ true) ⊎ (io.word.shutdown ≡ true)
  armed : armed_tick d io' ≡ io.word.tick
  same : io'.word ≡ io.word

arm-Armed : (d : Direction) (io : ScheduledIo) → (arm d io).0 ≡ none → Armed d io (arm d io).1
unfolding arm
arm-Armed reading io h = record { why = ground arith; armed = ground arith; same = ground arith }
arm-Armed writing io h = record { why = ground arith; armed = ground arith; same = ground arith }

arm_ready :
    (d : Direction) (io : ScheduledIo)
    → (shows d io.word.ready ≡ true) ⊎ (io.word.shutdown ≡ true)
    → (arm d io).0 ≡ none
unfolding arm
arm_ready d io (inl h) = ground arith
arm_ready d io (inr h) = ground arith

clear_stale : (d : Direction) (io : ScheduledIo) → io.word.tick ≢ armed_tick d io → clear d io ≡ io
unfolding clear
clear_stale reading io h = ground arith
clear_stale writing io h = ground arith

arm_cleared :
    (d : Direction) (io : ScheduledIo)
    → io.word.tick ≡ armed_tick d io
    → io.word.shutdown ≡ false
    → (arm d (clear d io)).0 ≢ none
unfolding arm clear
arm_cleared reading io h k = ground arith
arm_cleared writing io h k = ground arith

still_ready :
    (d : Direction) {n : ℕ} {io io' io'' : ScheduledIo}
    → Armed d io io'
    → Kept d n io' io''
    → (shows d io''.word.ready ≡ true) ⊎ (io''.word.shutdown ≡ true)
still_ready d p k = elim p.why [
  | inl h ↦ inl (k.shown (ap (λ w. shows d w.ready) p.same ∙ h))
  | inr h ↦ inr (k.down ∙ ap (λ w. w.shutdown) p.same ∙ h)
]

-- A direction is armed and found ready, between 1 and 255 edges come, the call would block, and the
-- direction is cleared and armed again: then it is found ready again, so no edge is lost.
pub rearm_keeps :
    (d : Direction) (io : ScheduledIo) (r : Ready) (rs : List Ready)
    → io.word.tick < 256
    → (arm d io).0 ≡ none
    → suc (length rs) < 256
    → (arm d (clear d (edges (r ∷ rs) (arm d io).1))).0 ≡ none
rearm_keeps d io r rs t a n =
    let p = arm-Armed d io a in
    let same_tick = ap (λ w. w.tick) p.same in
    let k = edges-Kept d (r ∷ rs) (arm d io).1 (omega (arith, same_tick)) in
    let io' = edges (r ∷ rs) (arm d io).1 in
    let stale : io'.word.tick ≢ armed_tick d io' =
      omega (arith, k.tick, k.armed, p.armed, same_tick) in
    rw (clear_stale d io' stale) (arm_ready d io' (still_ready d p k))

-- A direction is armed and found ready, edges come whose number is a multiple of 256, none included,
-- and the direction is cleared and armed again: the tick is that of the arming, so the edges are taken
-- for none, and the task parks, unless the descriptor is shut down.
pub rearm_wraps :
    (d : Direction) (io : ScheduledIo) (rs : List Ready)
    → io.word.tick < 256
    → (arm d io).0 ≡ none
    → io.word.shutdown ≡ false
    → length rs % 256 ≡ 0
    → (arm d (clear d (edges rs (arm d io).1))).0 ≢ none
rearm_wraps d io rs t a hs n =
    let p = arm-Armed d io a in
    let same_tick = ap (λ w. w.tick) p.same in
    let k = edges-Kept d rs (arm d io).1 (omega (arith, same_tick)) in
    arm_cleared d (edges rs (arm d io).1) (omega (arith, k.tick, k.armed, p.armed, same_tick, n, t))
      (k.down ∙ ap (λ w. w.shutdown) p.same ∙ hs)
