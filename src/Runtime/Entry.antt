-- ===== src/Runtime/Entry.antt =====
-- `run_until_complete` and `new` of tonio/_runtime.py, and `main` of tonio/_deco.py.
use tonio.Prelude.{
  ℕ, ◌≡◌, ap, Bool, true, false, Option, none, some, List, [], ◌∷◌, elem, ◌==◌, if◌then◌else◌,
}
use tonio.Runtime.{Error, pair, Kernel, Process, run_forever}
use tonio.Runtime.Restoring.{Catchable, run_restores}

-- How the coroutine under `runner` ends; every BaseException is caught.
pub data End (V X : Type 0) : Type 0 where
  value : V → End V X
  exception : X → End V X

-- What the call gives: a failed run raises its own error; an empty result is Python's None.
pub data Finished (V X : Type 0) : Type 0 where
  failed : Error → Finished V X
  raised : X → Finished V X
  returned : Option V → Finished V X

-- The keyword arguments.
pub record Options : Type 0 where
  pub context : Bool
  pub signals : Option (List ℕ)
  pub threads : Option ℕ
  pub blocking_threadpool_size : ℕ
  pub blocking_threadpool_idle_ttl : ℕ

-- The arguments of the native runtime.
pub record Config : Type 0 where
  pub threads : ℕ
  pub threads_blocking : ℕ
  pub threads_blocking_timeout : ℕ
  pub context : Bool
  pub signals : List ℕ

abbrev pub default_options : Options
default_options = record {
  context = false;
  signals = none;
  threads = none;
  blocking_threadpool_size = 128;
  blocking_threadpool_idle_ttl = 30;
}

-- `threads or multiprocessing.cpu_count()`
pub or_cpu_count : ℕ → Option ℕ → ℕ
or_cpu_count cpus none = cpus
or_cpu_count cpus (some n) = if n == 0 then cpus else n

pub or_empty : Option (List ℕ) → List ℕ
or_empty none = []
or_empty (some sigs) = sigs

pub new : ℕ → Options → Config
unfolding or_cpu_count or_empty
new cpus o = record {
  threads = or_cpu_count cpus o.threads;
  threads_blocking = o.blocking_threadpool_size;
  threads_blocking_timeout = o.blocking_threadpool_idle_ttl;
  context = o.context;
  signals = or_empty o.signals;
}

-- What `main` gives: a decorator with these options, or a function that runs the coroutine with them.
pub data Entry : Type 0 where
  decorator : Options → Entry
  wrapper : ℕ → Options → Entry
  syntax_error : Entry

-- Options given beside a coroutine are not used.
pub main : List ℕ → Options → Entry
main [] o = decorator o
main (c ∷ []) o = wrapper c default_options
main (c ∷ d ∷ cs) o = syntax_error

module _ {V X : Type 0} where
  -- Behind `self.run_forever()`: what `runner` has stored, none if the coroutine has not ended.
  pub fetched : Option (End V X) → Finished V X
  fetched none = returned none
  fetched (some (value v)) = returned (some v)
  fetched (some (exception x)) = raised x

  pub or_failed : Option Error → Option (End V X) → Finished V X
  unfolding fetched
  or_failed (some e) r = failed e
  or_failed none r = fetched r

  unfoldable pub run_until_complete :
      Kernel → Option Error → Option (End V X) → Process → Finished V X × Process
  unfolding or_failed
  run_until_complete k outcome r p = let q = run_forever k outcome p in (or_failed q.0 r, q.1)

  -- If the signals can be handled and `_run` raises nothing, the call gives what the coroutine gave, and
  -- raises what it raised; the wake-up descriptor is as it was.
  pub until_complete_result :
      (k : Kernel) (p : Process) (r w : ℕ) (v : V) (x : X)
      → k.main_thread ≡ true
      → p.ssock_w ≡ none
      → k.socketpair ≡ pair r w
      → k.setblocking ≡ none
      → ((s : ℕ) → elem s p.sigset ≡ true → Catchable k s)
      → ((run_until_complete k none (some (value v)) p).0 ≡ returned (some v))
        × ((run_until_complete k none (some (exception x)) p).0 ≡ raised x)
        × ((run_until_complete k none (some (value v)) p).1.wakeup ≡ p.wakeup)
  unfolding run_until_complete or_failed fetched
  until_complete_result k p r w v x on_main fresh made set h =
      let q = run_restores k on_main p r w none fresh made set h in
      (
        ap (λ e. or_failed e (some (value v))) q.0,
        ap (λ e. or_failed e (some (exception x))) q.0,
        q.1,
      )
