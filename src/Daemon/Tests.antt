-- ===== src/Daemon/Tests.antt =====
-- The child and the detached daemon of src/daemon.rs at concrete answers.
use direnv_instant.Prelude.{codes, text_eq, true, false, none, some, ◌≡◌, inr, refl, if◌then◌else◌}
use direnv_instant.Env.{Env, var, unset, value}
use direnv_instant.Daemon.Publish.{run_load}
use direnv_instant.Daemon.Publish.Stages.{Runs}
use direnv_instant.Daemon.Publish.Tests.{ctx, ctx-IsDistinct, load, files}
use direnv_instant.Daemon.Pump.{copy_pty_to_logfile}
use direnv_instant.Daemon.Child.{Child, not_executed, with_child, child_process-removes}
use direnv_instant.Daemon.Detach.{inherited, devnull, Calls, Streams, runs, detached}

-- direnv is not installed.
abbrev no_direnv : Child
no_direnv = record { created = true; status = not_executed }

no_direnv-Runs : Runs 4000 ctx (with_child no_direnv load) true
unfolding copy_pty_to_logfile
no_direnv-Runs = record { bound = refl; forked = refl; log_created = refl; loop = refl }

child_process-removes_example :
    (run_load 4000 ctx (with_child no_direnv load) files).fs (codes "/r/env") ≡ none
child_process-removes_example =
    child_process-removes 4000 ctx ctx-IsDistinct load no_direnv files (inr refl) no_direnv-Runs
      refl refl

-- A debug log below a directory that is missing.
abbrev debugging : Env
debugging k =
    if text_eq k (codes "DIRENV_INSTANT_DEBUG_LOG") then value (codes "/no/log") else unset

abbrev calls : Calls
calls = record {
  setsid = true;
  forks = true;
  opens_devnull = true;
  dups_stdin = true;
  creates_log = false;
  dups_stdout = true;
  dups_stderr = true;
}

abbrev left : Streams
left = record { stdin = devnull; stdout = inherited; stderr = inherited }

debugging_log : var debugging (codes "DIRENV_INSTANT_DEBUG_LOG") ≡ some (codes "/no/log")
debugging_log = refl

runs_left : detached debugging calls ≡ runs left
unfolding detached
runs_left = refl
