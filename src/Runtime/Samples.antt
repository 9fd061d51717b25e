-- ===== src/Runtime/Samples.antt =====
-- A process with the wake-up descriptor 9 and a handler of its own for signal 15.
use tonio.Prelude.{
  ℕ, ◌≡◌, refl, true, false, none, some, [], ◌∷◌, arith, ltb, elem, ◌==◌, if◌then◌else◌,
}
use tonio.Runtime.{os_error, pair, Kernel, foreign, Process, run_forever}
use tonio.Runtime.Restoring.{Catchable, Restored, run_restores}
use tonio.Runtime.Entry.{End, value, exception}

-- Signals below 65 are valid, and signal 9 cannot be caught.
abbrev kernel : Kernel
kernel = record {
  main_thread = true;
  valid = λ s. ltb s 65;
  signal = λ s. if s == 9 then some (os_error 22) else none;
  siginterrupt = λ s. none;
  socketpair = pair 5 6;
  setblocking = none;
  einval = 22;
  sigint = 2;
}

abbrev process : Process
process = record {
  ssock_r = none;
  ssock_w = none;
  sigset = 2 ∷ 15 ∷ [];
  sig_wfd = none;
  sig_listening = false;
  stopping = false;
  wakeup = some 9;
  handlers = λ s. foreign s;
}

abbrev busy : Process
busy = record process { ssock_r = some 5; ssock_w = some 6; sig_listening = true }

catchable : (s : ℕ) → elem s (2 ∷ 15 ∷ []) ≡ true → Catchable kernel s
catchable s h = ground (arith, h)

run_restores_example : Restored kernel process none (run_forever kernel none process)
run_restores_example = run_restores kernel refl process 5 6 none refl refl refl catchable

abbrev good : End ℕ ℕ
good = value 7

abbrev bad : End ℕ ℕ
bad = exception 8
