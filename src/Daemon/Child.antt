-- ===== src/Daemon/Child.antt =====
-- `child_process` of src/daemon.rs: the process on the pty, which runs direnv.
use direnv_instant.Prelude.{
  ℕ, Text, ℤ, pos, int_eq, Bool, true, false, Option, none, some, [], ◌≡◌, ◌∙◌, arith,
  if◌then◌else◌, ◌⊎◌,
}
use direnv_instant.Daemon.Files.{Fs}
use direnv_instant.Daemon.Context.{DaemonContext}
use direnv_instant.Daemon.Publish.{Load, exited_with, exit_code, run_load}
use direnv_instant.Daemon.Publish.Stages.{IsDistinct, Runs}
use direnv_instant.Daemon.Publish.Environment.{env_after, run_load-env_file}

-- What `Command::status` answers: an error, or direnv's end, with no code where a signal ended it, and
-- what direnv wrote to the file that is its standard output.
pub data Status : Type 0 where
  not_executed : Status
  ended : Option ℤ → Text → Status

pub record Child : Type 0 where
  pub created : Bool  -- `File::create` on the temporary file
  pub status : Status

abbrev code_or_one : Option ℤ → ℤ
code_or_one none = pos 1
code_or_one (some code) = code

abbrev pub on_status : Status → Option Text × ℤ
on_status not_executed = (some [], pos 1)
on_status (ended code stdout) = (some stdout, code_or_one code)

-- What the child leaves in the temporary file, if it has opened it, and its exit status.
unfoldable pub child_process : Child → Option Text × ℤ
child_process c = if c.created then on_status c.status else (none, pos 1)

-- A load with the child's part filled in.
abbrev pub with_child : Child → Load → Load
with_child c l =
    let (exported, code) = child_process c in
    record l { exported = exported; wait = exited_with code }

-- The temporary file cannot be opened, or direnv cannot be executed.
abbrev pub Fails : Child → Type 0
Fails c = (c.created ≡ false) ⊎ (c.status ≡ not_executed)

child_process-env_after :
    (c : Child) (old : Option Text)
    → Fails c
    → env_after (child_process c).0 (child_process c).1 old ≡ none
unfolding child_process int_eq
child_process-env_after c old h = ground arith

-- Where direnv cannot be run, a load that is not cancelled removes the environment that an earlier
-- load has left. The daemon gets its socket, child and log, the call that renames an environment
-- succeeds where it is made, the six files are different paths and the first temporary file was
-- created empty.
pub child_process-removes :
    (mux_delay_ms : ℕ) (ctx : DaemonContext) (d : IsDistinct ctx) (l : Load) (c : Child) (fs : Fs)
    → Fails c
    → Runs mux_delay_ms ctx (with_child c l) true
    → l.env_renamed ≡ true
    → fs ctx.temp_file ≡ some []
    → (run_load mux_delay_ms ctx (with_child c l) fs).fs ctx.env_file ≡ none
unfolding child_process exit_code
child_process-removes mux_delay_ms ctx d l c fs h r ok made =
    run_load-env_file ctx d (with_child c l) mux_delay_ms fs r ok made
    ∙ child_process-env_after c (fs ctx.env_file) h
