-- ===== src/Subprocess/Pipes.antt =====
-- Which descriptors `open_process` leaves open.
use tonio.Prelude.{
  ℕ, zero, suc, ◌+◌, ◌≤◌, ◌≡◌, refl, ap, ◌∙◌, Bool, Option, none, some, List, [], ◌∷◌, arith, count,
  one_if, ltb, inl, inr, Bool-cases,
}
use tonio.Subprocess.{
  Options, Stdio, pipe, stdout_too, descriptor, Handle, inherit, child_end, merged, given, Error,
  type_error, os_error, Stacks, Ready, ready, pipe_fails, check_options, Piping, piped, no_pipe,
  no_stream, Spawning, spawns, no_child, no_descriptor, unmanaged, manage, make_pipe, prepare,
  prepare_stderr, Outcome, started, raised, Opened, failed, popen, System, with_stderr, with_stdout,
  with_stdin, open_process,
}

-- The numbers below `n`, the latest first.
abbrev pub down_from : ℕ → List ℕ
down_from zero = []
down_from (suc n) = n ∷ down_from n

count-down_from : (i n : ℕ) → count i (down_from n) ≡ one_if (ltb i n)
count-down_from i zero = ground arith
count-down_from i (suc n) = ground (arith, count-down_from i n)

-- Both stacks have all pipes so far, and few pipes are known to none.
record IsSound (b : ℕ) (s : Stacks) : Type 0 where
  always : s.always ≡ down_from s.pipes
  on_fail : s.on_fail ≡ down_from s.pipes
  few : s.unwrapped ≤ b

abbrev SoundReady : ℕ → Ready → Type 0
SoundReady b (ready h o s) = IsSound 0 s
SoundReady b (pipe_fails e s) = IsSound b s

abbrev refusal : Piping → ℕ
refusal piped = 0
refusal (no_pipe e) = 0
refusal (no_stream e) = 1

refusal-≤ : (a : Piping) → refusal a ≤ 1
refusal-≤ piped = omega arith
refusal-≤ (no_pipe e) = omega arith
refusal-≤ (no_stream e) = omega arith

-- How many of the answers are that FdStream fails.
abbrev pub refusals : System → ℕ
refusals k = refusal k.stdin_pipe + refusal k.stdout_pipe + refusal k.stderr_pipe

-- What each outcome leaves, of the numbered pipes the ends that are closed, each of them once, and of the
-- others, of which no end is closed, their count, `c` being that of the refusals of FdStream.
abbrev pub LeavesOpen : ℕ → Outcome → ℕ → List ℕ → List ℕ → ℕ → Type 0
LeavesOpen c (started i o r) pipes own child unwrapped =
    (own ≡ []) × ((k : ℕ) → count k child ≡ one_if (ltb k pipes)) × (unwrapped ≡ 0)
LeavesOpen c (raised e) pipes own child unwrapped =
    ((k : ℕ) → count k own ≡ one_if (ltb k pipes))
    × ((k : ℕ) → count k child ≡ one_if (ltb k pipes))
    × (unwrapped ≤ 1)
    × (unwrapped ≤ c)
LeavesOpen c (unmanaged e) pipes own child unwrapped =
    (own ≡ []) × ((k : ℕ) → count k child ≡ one_if (ltb k pipes)) × (unwrapped ≡ 0)

abbrev Leaves : ℕ → Opened → Type 0
Leaves c r = LeavesOpen c r.outcome r.pipes r.own_closed r.child_closed r.unwrapped

failed-Leaves :
    (b c : ℕ) (e : Error) (s : Stacks) → b ≤ 1 → b ≤ c → IsSound b s → Leaves c (failed e s)
failed-Leaves b c e s h q v = (
  λ k. ap (count k) v.on_fail ∙ count-down_from k s.pipes,
  λ k. ap (count k) v.always ∙ count-down_from k s.pipes,
  omega (arith, v.few),
  omega (arith, v.few),
)

popen-Leaves :
    (c : ℕ) (a : Spawning) (i o r : Option ℕ) (s : Stacks)
    → IsSound 0 s
    → Leaves c (popen a i o r s)
unfolding popen manage
popen-Leaves c (no_child e) i o r s v =
    failed-Leaves 0 c (os_error e) s (omega arith) (omega arith) v
popen-Leaves c spawns i o r s v =
    (refl, λ k. ap (count k) v.always ∙ count-down_from k s.pipes, omega (arith, v.few))
popen-Leaves c (no_descriptor e) i o r s v =
    (refl, λ k. ap (count k) v.always ∙ count-down_from k s.pipes, omega (arith, v.few))

prepare-SoundReady :
    (spec : Option Stdio) (a : Piping) (s : Stacks)
    → IsSound 0 s
    → SoundReady (refusal a) (prepare spec a s)
unfolding prepare make_pipe
prepare-SoundReady none a s v = v
prepare-SoundReady (some pipe) (no_pipe e) s v = v
prepare-SoundReady (some pipe) (no_stream e) s v = record {
  always = v.always;
  on_fail = v.on_fail;
  few = omega (arith, v.few);
}
prepare-SoundReady (some pipe) piped s v = record {
  always = ap (◌∷◌ s.pipes) v.always;
  on_fail = ap (◌∷◌ s.pipes) v.on_fail;
  few = v.few;
}
prepare-SoundReady (some stdout_too) a s v = v
prepare-SoundReady (some (descriptor n)) a s v = v

prepare_stderr-SoundReady :
    (spec : Option Stdio) (out : Handle) (fails : Piping) (s : Stacks)
    → IsSound 0 s
    → SoundReady (refusal fails) (prepare_stderr spec out fails s)
unfolding prepare_stderr
prepare_stderr-SoundReady (some stdout_too) inherit fails s v = v
prepare_stderr-SoundReady (some stdout_too) (child_end n) fails s v = v
prepare_stderr-SoundReady (some stdout_too) merged fails s v = v
prepare_stderr-SoundReady (some stdout_too) (given n) fails s v = v
prepare_stderr-SoundReady none out fails s v = v
prepare_stderr-SoundReady (some pipe) out fails s v = prepare-SoundReady (some pipe) fails s v
prepare_stderr-SoundReady (some (descriptor n)) out fails s v = v

module _ (k : System) where
  stderr-Leaves :
      (b : ℕ) (i o : Option ℕ) (r : Ready)
      → b ≤ 1
      → b ≤ refusals k
      → SoundReady b r
      → Leaves (refusals k) (with_stderr k i o r)
  unfolding with_stderr
  stderr-Leaves b i o (pipe_fails e s) h q v = failed-Leaves b (refusals k) (os_error e) s h q v
  stderr-Leaves b i o (ready x r s) h q v = popen-Leaves (refusals k) k.spawned i o r s v

  stdout-Leaves :
      (b : ℕ) (err : Option Stdio) (i : Option ℕ) (r : Ready)
      → b ≤ 1
      → b ≤ refusals k
      → SoundReady b r
      → Leaves (refusals k) (with_stdout k err i r)
  unfolding with_stdout
  stdout-Leaves b err i (pipe_fails e s) h q v = failed-Leaves b (refusals k) (os_error e) s h q v
  stdout-Leaves b err i (ready x o s) h q v =
      stderr-Leaves (refusal k.stderr_pipe) i o _ (refusal-≤ k.stderr_pipe) (omega arith)
        (prepare_stderr-SoundReady err x k.stderr_pipe s v)

  stdin-Leaves :
      (b : ℕ) (out err : Option Stdio) (r : Ready)
      → b ≤ 1
      → b ≤ refusals k
      → SoundReady b r
      → Leaves (refusals k) (with_stdin k out err r)
  unfolding with_stdin
  stdin-Leaves b out err (pipe_fails e s) h q v = failed-Leaves b (refusals k) (os_error e) s h q v
  stdin-Leaves b out err (ready x i s) h q v =
      stdout-Leaves (refusal k.stdout_pipe) err i _ (refusal-≤ k.stdout_pipe) (omega arith)
        (prepare-SoundReady out k.stdout_pipe s v)

-- Whatever is asked for, and whichever of the calls of `os.pipe`, FdStream, Popen and `open_proc_fd`
-- fails, of every pipe whose own end was wrapped: when `open_process` returns, the child's end has been
-- closed once and the own end has not; when it raises before the child runs, both ends have been closed
-- once; and when `Process` fails for a child that runs, the own ends are left open, with the child's
-- ends closed once. Beside these, no pipe is left open, but that one whose FdStream failed, which is one at
-- most.
pub open_process-LeavesOpen :
    (posix : Bool) (o : Options) (stdin stdout stderr : Option Stdio) (k : System)
    → let r = open_process posix o stdin stdout stderr k in
      LeavesOpen (refusals k) r.outcome r.pipes r.own_closed r.child_closed r.unwrapped
unfolding open_process
open_process-LeavesOpen posix o stdin stdout stderr k =
    let s : Stacks = record { pipes = 0; always = []; on_fail = []; unwrapped = 0 } in
    let v : IsSound 0 s = record { always = refl; on_fail = refl; few = omega arith } in
    elim (Bool-cases (check_options posix o)) [
      | inl h ↦ rw h (
          stdin-Leaves k (refusal k.stdin_pipe) stdout stderr _ (refusal-≤ k.stdin_pipe)
            (omega arith) (prepare-SoundReady stdin k.stdin_pipe s v))
      | inr h ↦ rw h (failed-Leaves 0 (refusals k) type_error s (omega arith) (omega arith) v)
    ]
