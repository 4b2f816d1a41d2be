-- ===== src/Commands/Start/Tests.antt =====
-- A whole load, from a prompt of src/commands/start.rs to the end of its daemon.
use direnv_instant.Prelude.{
  Text, codes, ne_of_text_eq, parse_i32, pos, true, false, none, some, [], ◌∷◌, ◌≡◌, inr, refl,
}
use direnv_instant.Shell.{zsh, from_env}
use direnv_instant.Mux.Detect.{tmux, detect}
use direnv_instant.Daemon.Files.{Fs}
use direnv_instant.Daemon.Context.{DaemonContext, new}
use direnv_instant.Daemon.Pump.{Select, readable, bytes, eio, Round, copy_pty_to_logfile}
use direnv_instant.Daemon.Publish.{Load, exited_with, exit_code, run_direnv}
use direnv_instant.Daemon.Publish.Stages.{Runs}
use direnv_instant.Daemon.Publish.Environment.{env_after}
use direnv_instant.Commands.{World, path_of, find_envrc, shell_pid, env_file_var}
use direnv_instant.Commands.Start.{run}
use direnv_instant.Commands.Start.Load.{Starts, TellsThenStarts, run-run_direnv}
use direnv_instant.Commands.Tests.{hash, world}

abbrev w : World
w = world (codes "zsh")

abbrev ctx : DaemonContext
ctx = record {
  parent_pid = pos 77;
  envrc_dir = codes "/p";
  runtime_dir = codes "/tmp/direnv-instant/7";
  socket_path = codes "/tmp/direnv-instant/7/daemon.sock";
  env_file = codes "/tmp/direnv-instant/7/env";
  stderr_file = codes "/tmp/direnv-instant/7/env.stderr";
  temp_file = [];
  temp_stderr = [];
  multiplexer = some tmux;
  shell = zsh;
}

w-Starts : Starts hash w zsh (inr refl) ctx (codes "p" ∷ [])
unfolding from_env find_envrc detect new shell_pid parse_i32 path_of
w-Starts = record {
  shell_is = refl;
  found = refl;
  multiplexed = refl;
  context = refl;
  unused = refl;
  still_unused = refl;
  forks = refl;
}

abbrev going : Select → Round
going s = record { stop = false; select = s }

abbrev load : Load
load = record {
  bound = true;
  forked = true;
  log_created = true;
  rounds = going (readable (bytes (codes "hi") 8192)) ∷ going (readable eio) ∷ [];
  exported = some (codes "E");
  wait = exited_with (pos 1);
  stderr_renamed = true;
  env_renamed = true;
  connections = [];
}

load-Runs : Runs 4000 ctx load true
unfolding copy_pty_to_logfile
load-Runs = record { bound = refl; forked = refl; log_created = refl; loop = refl }

abbrev files : Fs
files p = none

run-run_direnv_example :
    (file : Text) × TellsThenStarts env_file_var file ctx (run hash w)
    × ((run_direnv 4000 ctx (some (codes "x1Y2z3")) (some (codes "Ab12Cd")) load files).fs file
        ≡ env_after load.exported (exit_code load.wait) (files file))
run-run_direnv_example =
    run-run_direnv hash w zsh (inr refl) ctx (codes "p" ∷ []) w-Starts (codes "x1Y2z3")
      (codes "Ab12Cd") files 4000 load (ne_of_text_eq _ _ refl) load-Runs refl
