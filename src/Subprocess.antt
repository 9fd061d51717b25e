-- ===== src/Subprocess.antt =====
-- tonio/_subprocess.py. The system's answers are arguments: whether each `os.pipe` and `Popen` works,
-- the chunks that a pipe gives, and the exit status.
mod Samples
pub mod Pipes
pub mod Running
pub mod Waiting
use tonio.Prelude.{
  ℕ, suc, ◌+◌, Bool, true, false, not, ◌&&◌, ◌||◌, Option, none, some, List, [], ◌∷◌, ◌++◌, ◌==◌,
  if◌then◌else◌,
}

-- The options that are refused when they are true, and `shell`; whether the command is a string.
pub record Options : Type 0 where
  pub universal_newlines : Bool
  pub text_mode : Bool
  pub encoding : Bool
  pub errors : Bool
  pub bufsize : Bool
  pub shell : Bool
  pub is_string : Bool

-- PIPE, STDOUT, or a descriptor; none is None.
pub data Stdio : Type 0 where
  pipe : Stdio
  stdout_too : Stdio
  descriptor : ℕ → Stdio

-- What Popen is given: nothing, the child's end of a pipe, STDOUT, or the caller's descriptor.
pub data Handle : Type 0 where
  inherit : Handle
  child_end : ℕ → Handle
  merged : Handle
  given : ℕ → Handle

pub data Error : Type 0 where
  type_error unicode_error value_error : Error
  os_error : ℕ → Error
  -- CalledProcessError: the status and both outputs
  called_process : ℕ → Option (List ℕ) → Option (List ℕ) → Error

-- `pipes` counts the pipes made, which are numbered; `always` and `on_fail` are the callbacks of the two
-- exit stacks, the latest first: child's ends to close, and own ends to close. `unwrapped` counts the
-- pipes, not numbered, whose FdStream was refused, so that neither end is known to a stack.
pub record Stacks : Type 0 where
  pub pipes : ℕ
  pub always : List ℕ
  pub on_fail : List ℕ
  pub unwrapped : ℕ

-- One of stdin, stdout, stderr made ready: what Popen gets, and the own end.
pub data Ready : Type 0 where
  ready : Handle → Option ℕ → Stacks → Ready
  pipe_fails : ℕ → Stacks → Ready

-- The checks in front.
pub check_options : Bool → Options → Bool
check_options posix o =
    not (o.universal_newlines || o.text_mode || o.encoding || o.errors || o.bufsize)
    && (if posix then (if o.is_string then o.shell else not o.shell) else true)

-- How the making of a pipe goes: `os.pipe` fails, or it works and FdStream fails on the own end.
pub data Piping : Type 0 where
  piped : Piping
  no_pipe no_stream : ℕ → Piping

-- `_pipe_to_child_stdin`, `_pipe_from_child_output`, and the two callbacks.
pub make_pipe : Piping → Stacks → Ready
make_pipe (no_pipe e) s = pipe_fails e s
make_pipe (no_stream e) s = pipe_fails e (record s { unwrapped = suc s.unwrapped })
make_pipe piped s =
    ready (child_end s.pipes) (some s.pipes)
      (record s { pipes = suc s.pipes; always = s.pipes ∷ s.always; on_fail = s.pipes ∷ s.on_fail })

-- For stdin and stdout.
pub prepare : Option Stdio → Piping → Stacks → Ready
unfolding make_pipe
prepare none answer s = ready inherit none s
prepare (some pipe) answer s = make_pipe answer s
prepare (some stdout_too) answer s = ready merged none s
prepare (some (descriptor n)) answer s = ready (given n) none s

-- For stderr, behind stdout: STDOUT is stdout's own handle, unless that is None.
pub prepare_stderr : Option Stdio → Handle → Piping → Stacks → Ready
unfolding prepare
prepare_stderr (some stdout_too) inherit answer s = ready merged none s
prepare_stderr (some stdout_too) out answer s = ready out none s
prepare_stderr spec out answer s = prepare spec answer s

-- How `open_process` ends: the own ends of a started process; an error in the block; or the error of
-- `Process(…)`, behind it, for a child that runs; and the ends closed.
pub data Outcome : Type 0 where
  started : Option ℕ → Option ℕ → Option ℕ → Outcome
  raised : Error → Outcome
  unmanaged : Error → Outcome

pub record Opened : Type 0 where
  pub outcome : Outcome
  pub pipes : ℕ
  pub own_closed : List ℕ
  pub child_closed : List ℕ
  pub unwrapped : ℕ

-- Both stacks unwind, the inner first.
abbrev failed : Error → Stacks → Opened
failed e s = record {
  outcome = raised e;
  pipes = s.pipes;
  own_closed = s.on_fail;
  child_closed = s.always;
  unwrapped = s.unwrapped;
}

-- How the process is started: `Popen` fails, or it works and `open_proc_fd` in `Process` fails.
pub data Spawning : Type 0 where
  spawns : Spawning
  no_child no_descriptor : ℕ → Spawning

-- `Process(…)`, behind the block.
pub manage : Spawning → Option ℕ → Option ℕ → Option ℕ → Outcome
manage (no_descriptor e) i o r = unmanaged (os_error e)
manage _ i o r = started i o r

-- `Popen`, and `cleanup_on_fail.pop_all()` behind it.
pub popen : Spawning → Option ℕ → Option ℕ → Option ℕ → Stacks → Opened
unfolding manage
popen (no_child e) i o r s = failed (os_error e) s
popen a i o r s = record {
  outcome = manage a i o r;
  pipes = s.pipes;
  own_closed = [];
  child_closed = s.always;
  unwrapped = s.unwrapped;
}

-- What the system answers: for each of the three pipes, and for the process.
pub record System : Type 0 where
  pub stdin_pipe : Piping
  pub stdout_pipe : Piping
  pub stderr_pipe : Piping
  pub spawned : Spawning

pub with_stderr : System → Option ℕ → Option ℕ → Ready → Opened
unfolding popen
with_stderr k i o (pipe_fails e s) = failed (os_error e) s
with_stderr k i o (ready h r s) = popen k.spawned i o r s

pub with_stdout : System → Option Stdio → Option ℕ → Ready → Opened
unfolding with_stderr prepare_stderr
with_stdout k err i (pipe_fails e s) = failed (os_error e) s
with_stdout k err i (ready h o s) = with_stderr k i o (prepare_stderr err h k.stderr_pipe s)

pub with_stdin : System → Option Stdio → Option Stdio → Ready → Opened
unfolding with_stdout prepare
with_stdin k out err (pipe_fails e s) = failed (os_error e) s
with_stdin k out err (ready h i s) = with_stdout k err i (prepare out k.stdout_pipe s)

pub open_process : Bool → Options → Option Stdio → Option Stdio → Option Stdio → System → Opened
unfolding check_options with_stdin prepare
open_process posix o stdin stdout stderr k =
    let s : Stacks = record { pipes = 0; always = []; on_fail = []; unwrapped = 0 } in
    if check_options posix o
    then with_stdin k stdout stderr (prepare stdin k.stdin_pipe s)
    else failed type_error s

-- `read_output`: the chunks up to the first empty one, joined; with no more chunks it waits.
pub read_output : List (List ℕ) → List ℕ
read_output [] = []
read_output ([] ∷ chunks) = []
read_output ((b ∷ chunk) ∷ chunks) = (b ∷ chunk) ++ read_output chunks

-- What `run_process` is given for stdin: a str, bytes, or what open_process takes.
pub data Input : Type 0 where
  str_input : Input
  bytes_input : List ℕ → Input
  stdio_input : Option Stdio → Input

pub record Request : Type 0 where
  pub input : Input
  pub capture_stdout : Bool
  pub capture_stderr : Bool
  -- `stdout` and `stderr` in the options
  pub stdout : Option (Option Stdio)
  pub stderr : Option (Option Stdio)
  pub check : Bool

-- The three arguments for open_process, and the bytes to feed.
pub record Plan : Type 0 where
  pub stdin : Option Stdio
  pub stdout : Option Stdio
  pub stderr : Option Stdio
  pub feed : Option (List ℕ)

pub data Planned : Type 0 where
  plan : Plan → Planned
  refused : Error → Planned

abbrev or_none : Option (Option Stdio) → Option Stdio
or_none none = none
or_none (some s) = s

-- A capture and an option exclude each other.
abbrev clashes : Bool → Option (Option Stdio) → Bool
clashes capture none = false
clashes capture (some s) = capture

abbrev captured : Bool → Option (Option Stdio) → Option Stdio
captured capture o = if capture then some pipe else or_none o

-- The front of `run_process`.
pub plan_run : Request → Planned
plan_run q =
    let clash = clashes q.capture_stdout q.stdout || clashes q.capture_stderr q.stderr in
    let out = captured q.capture_stdout q.stdout in
    let err = captured q.capture_stderr q.stderr in
    elim q.input [
      | str_input ↦ refused unicode_error
      | bytes_input d ↦
          if clash
          then refused value_error
          else plan (record { stdin = some pipe; stdout = out; stderr = err; feed = some d })
      | stdio_input s ↦
          if clash
          then refused value_error
          else plan (record { stdin = s; stdout = out; stderr = err; feed = none })
    ]

pub data Completed : Type 0 where
  completed : ℕ → Option (List ℕ) → Option (List ℕ) → Completed
  check_failed : Error → Completed

abbrev output : Bool → List (List ℕ) → Option (List ℕ)
output capture chunks = if capture then some (read_output chunks) else none

-- The end of `run_process`, where the status is 0 or not.
pub complete : Request → ℕ → List (List ℕ) → List (List ℕ) → Completed
unfolding read_output
complete q status out err =
    let o = output q.capture_stdout out in
    let e = output q.capture_stderr err in
    if not (status == 0) && q.check
    then check_failed (called_process status o e)
    else completed status o e
