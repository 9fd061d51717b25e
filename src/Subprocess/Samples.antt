-- ===== src/Subprocess/Samples.antt =====
-- A process with two pipes that does not start, and one that exits with status 3.
use tonio.Prelude.{◌≡◌, ◌≢◌, refl, List, if◌then◌else◌, true, false, none, some, [], ◌∷◌}
use tonio.Subprocess.{Options, pipe, piped, no_child, System, open_process}
use tonio.Subprocess.Waiting.{
  Status, code, blocked, attribute_error, returned, Move, exits, polls, begins, arms, started, run,
}
use tonio.Subprocess.Waiting.Reaping.{wait_result}
use tonio.Subprocess.Pipes.{LeavesOpen, refusals, open_process-LeavesOpen}

abbrev plain : Options
plain = record {
  universal_newlines = false;
  text_mode = false;
  encoding = false;
  errors = false;
  bufsize = false;
  shell = false;
  is_string = false;
}

-- The program is not found.
abbrev system : System
system = record {
  stdin_pipe = piped;
  stdout_pipe = piped;
  stderr_pipe = piped;
  spawned = no_child 2;
}

open_process-LeavesOpen_example :
    let r = open_process true plain (some pipe) (some pipe) none system in
    LeavesOpen (refusals system) r.outcome r.pipes r.own_closed r.child_closed r.unwrapped
open_process-LeavesOpen_example =
    open_process-LeavesOpen true plain (some pipe) (some pipe) none system

-- The child ends behind the poll of the wait, before its descriptor is armed.
abbrev moves : List Move
moves = polls ∷ begins ∷ exits (code 3) ∷ arms true ∷ polls ∷ []

wait_result_example :
    ((run started moves).phase ≢ blocked)
    × ((run started moves).phase ≢ attribute_error)
    × ((run started moves).closes ≡ (if (run started moves).pidfd then 0 else 1))
    × ((s : Status)
        → (run started moves).phase ≡ returned s
        → ((run started moves).exited ≡ some s) × ((run started moves).pidfd ≡ false))
wait_result_example = wait_result moves

waited : (run started moves).phase ≡ returned (code 3)
unfolding run started
waited = refl
