-- ===== src/Daemon/Publish/Tests.antt =====
-- Whole loads of src/daemon.rs at concrete inputs.
use direnv_instant.Prelude.{
  ℕ, Text, codes, text_eq, ne_of_text_eq, display, pos, int_eq, parse_i32, trim, true, false,
  Option, none, some, [], ◌∷◌, ◌++◌, ◌≡◌, refl, arith, inl, if◌then◌else◌, not, ◌||◌,
}
use direnv_instant.Env.{Env, unset, value}
use direnv_instant.Shell.{zsh}
use direnv_instant.Mux.Detect.{nvim}
use direnv_instant.Daemon.Files.{Fs}
use direnv_instant.Daemon.Context.{DaemonContext, exited, cancelled, new, create_temp_files}
use direnv_instant.Daemon.Protocol.{notify, message}
use direnv_instant.Daemon.Registry.{serve, initial}
use direnv_instant.Daemon.Pump.{Select, readable, bytes, eio, quiet, Round, copy_pty_to_logfile}
use direnv_instant.Daemon.Pump.Log.{received}
use direnv_instant.Daemon.Publish.{Load, exited_with, terminate_child, report, wake, run_load}
use direnv_instant.Daemon.Publish.Stages.{IsDistinct, Runs}
use direnv_instant.Daemon.Publish.Environment.{
  env_after, run_load-env_file, run_load-cancelled_keeps,
}
use direnv_instant.Daemon.Publish.Leaks.{run_load-gone}
use direnv_instant.Daemon.Publish.Signals.{
  woken, is_empty_text, exports_something, waiting, run_load-woken,
}

abbrev pub ctx : DaemonContext
ctx = record {
  parent_pid = pos 42;
  envrc_dir = codes "/p";
  runtime_dir = codes "/r";
  socket_path = codes "/r/daemon.sock";
  env_file = codes "/r/env";
  stderr_file = codes "/r/env.stderr";
  temp_file = codes "/r/env.a";
  temp_stderr = codes "/r/env_stderr.b";
  multiplexer = some nvim;
  shell = zsh;
}

pub ctx-IsDistinct : IsDistinct ctx
ctx-IsDistinct = record {
  socket-temp_file = ne_of_text_eq _ _ refl;
  socket-temp_stderr = ne_of_text_eq _ _ refl;
  socket-env_file = ne_of_text_eq _ _ refl;
  socket-stderr_file = ne_of_text_eq _ _ refl;
  temp_file-temp_stderr = ne_of_text_eq _ _ refl;
  temp_file-env_file = ne_of_text_eq _ _ refl;
  temp_file-stderr_file = ne_of_text_eq _ _ refl;
  temp_stderr-env_file = ne_of_text_eq _ _ refl;
  temp_stderr-stderr_file = ne_of_text_eq _ _ refl;
  env_file-stderr_file = ne_of_text_eq _ _ refl;
}

abbrev going : Select → Round
going s = record { stop = false; select = s }

-- One message, another shell joins, and direnv fails behind an export.
abbrev pub load : Load
load = record {
  bound = true;
  forked = true;
  log_created = true;
  rounds = going (readable (bytes (codes "hi") 8192)) ∷ going (readable eio) ∷ [];
  exported = some (codes "E");
  wait = exited_with (pos 1);
  stderr_renamed = true;
  env_renamed = true;
  connections = some (message (notify (pos 43))) ∷ [];
}

abbrev cancelled_load : Load
cancelled_load = record load { rounds = record { stop = true; select = quiet 0 } ∷ [] }

-- The files as `create_temp_files` leaves them, beside an old environment.
abbrev pub files : Fs
files p =
    if text_eq (codes "/r/env") p
    then some (codes "OLD")
    else if text_eq (codes "/r/env.a") p
    then some []
    else if text_eq (codes "/r/env_stderr.b") p
    then some []
    else none

pub load-Runs : Runs 4000 ctx load true
unfolding copy_pty_to_logfile
load-Runs = record { bound = refl; forked = refl; log_created = refl; loop = refl }

cancelled_load-Runs : Runs 4000 ctx cancelled_load false
unfolding copy_pty_to_logfile
cancelled_load-Runs = record { bound = refl; forked = refl; log_created = refl; loop = refl }

load_effects :
    (run_load 4000 ctx load files).effects
    ≡ report (exited (pos 1)) ∷ wake (pos 42) ∷ wake (pos 43) ∷ []
unfolding run_load message parse_i32 trim int_eq copy_pty_to_logfile serve display initial
load_effects = refl

cancelled_effects :
    (run_load 4000 ctx cancelled_load files).effects ≡ terminate_child ∷ report cancelled ∷ []
unfolding run_load copy_pty_to_logfile
cancelled_effects = refl

run_load-env_file_example :
    (run_load 4000 ctx load files).fs (codes "/r/env")
    ≡ env_after (some (codes "E")) (pos 1) (files (codes "/r/env"))
run_load-env_file_example = run_load-env_file ctx ctx-IsDistinct load 4000 files load-Runs refl refl

run_load-cancelled_keeps_example :
    (run_load 4000 ctx cancelled_load files).fs (codes "/r/env") ≡ files (codes "/r/env")
run_load-cancelled_keeps_example =
    run_load-cancelled_keeps ctx ctx-IsDistinct cancelled_load 4000 files (codes "/r/env")
      cancelled_load-Runs (ne_of_text_eq _ _ refl) (ne_of_text_eq _ _ refl) (ne_of_text_eq _ _ refl)

run_load-gone_example :
    let fs' = (run_load 4000 ctx load files).fs in
    (fs' (codes "/r/daemon.sock") ≡ none)
    × (fs' (codes "/r/env.a") ≡ none)
    × (fs' (codes "/r/env_stderr.b") ≡ none)
unfolding run_load copy_pty_to_logfile
run_load-gone_example = run_load-gone 4000 ctx load files (inl refl)

run_load-woken_example : woken (run_load 4000 ctx load files).effects ≡ (
    if not (is_empty_text (received load.rounds)) || exports_something load.exported
    then waiting ctx load
    else [])
run_load-woken_example =
    run_load-woken 4000 ctx ctx-IsDistinct load files load-Runs refl (omega arith)

abbrev home : Env
home k = if text_eq k (codes "HOME") then value (codes "/h") else unset

abbrev hash : Text → Option Text → ℕ
hash dir session = 255

abbrev fresh : DaemonContext
fresh = record {
  parent_pid = pos 42;
  envrc_dir = codes "/p";
  runtime_dir = codes "/h/.cache/direnv-instant/ff";
  socket_path = codes "/h/.cache/direnv-instant/ff/daemon.sock";
  env_file = codes "/h/.cache/direnv-instant/ff/env";
  stderr_file = codes "/h/.cache/direnv-instant/ff/env.stderr";
  temp_file = [];
  temp_stderr = [];
  multiplexer = none;
  shell = zsh;
}

fresh_lem : new hash home true true (pos 42) (codes "/p") zsh ≡ some fresh
unfolding new
fresh_lem = refl

abbrev prepared : Text → DaemonContext
prepared s = record fresh {
  temp_file = codes "/h/.cache/direnv-instant/ff/env." ++ s;
  temp_stderr = codes "/h/.cache/direnv-instant/ff/env_stderr.Ab12Cd";
}

prepared_lem :
    (create_temp_files (some (codes "x1Y2z3")) (some (codes "Ab12Cd")) fresh files).0
    ≡ some (prepared (codes "x1Y2z3"))
unfolding create_temp_files
prepared_lem = refl

collided_lem :
    (create_temp_files (some (codes "stderr")) (some (codes "Ab12Cd")) fresh files).0
    ≡ some (prepared (codes "stderr"))
unfolding create_temp_files
collided_lem = refl
