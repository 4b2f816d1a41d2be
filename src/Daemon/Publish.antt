-- ===== src/Daemon/Publish.antt =====
-- `parent_process` and `run_direnv` of src/daemon.rs: the daemon from its temporary files to the
-- published environment. What the rest of the world does is in `Load`.
pub mod Stages
pub mod Environment
pub mod Signals
pub mod Leaks
pub mod Collision
pub mod Tests
use direnv_instant.Prelude.{
  ℕ, Text, ℤ, pos, int_eq, Bool, true, false, not, ◌||◌, Option, none, some, List, [], ◌∷◌, ◌++◌,
  map, if◌then◌else◌, ◌+◌,
}
use direnv_instant.Shell.{Shell, nushell, bash, zsh, fish}
use direnv_instant.Mux.Detect.{Multiplexer, nvim, tmux, zellij, wezterm, kitty, herdr}
use direnv_instant.Daemon.Files.{Fs, put, create, remove_file, rename, has_content}
use direnv_instant.Daemon.Context.{
  DaemonContext, LoadOutcome, exited, cancelled, create_temp_files, cleanup,
}
use direnv_instant.Daemon.Registry.{Shared, serve, initial}
use direnv_instant.Daemon.Pump.{Round, Pump, start, Next, continue, return, copy_pty_to_logfile}

-- What `waitpid` answers.
pub data WaitStatus : Type 0 where
  exited_with : ℤ → WaitStatus
  signaled : ℕ → WaitStatus
  other : WaitStatus

-- What the daemon does to other processes.
pub data Effect : Type 0 where
  terminate_child : Effect  -- SIGTERM to direnv
  report : LoadOutcome → Effect  -- the request to Neovim
  wake : ℤ → Effect  -- SIGUSR1 to a shell

pub data End : Type 0 where
  running : End
  returned : End
  exit : ℕ → End  -- `std::process::exit`
  panicked : End

pub record Load : Type 0 where
  pub bound : Bool  -- `UnixListener::bind`
  pub forked : Bool  -- `forkpty`
  pub log_created : Bool  -- `File::create` on the log
  pub rounds : List Round  -- what the copy loop meets
  pub exported : Option Text  -- what the child leaves in the temporary file, if it could create it
  pub wait : WaitStatus
  pub stderr_renamed : Bool  -- whether the two calls of `rename` succeed
  pub env_renamed : Bool
  pub connections : List (Option Text)  -- the clients served before the shells are signalled

pub record Result : Type 0 where
  pub end : End
  pub fs : Fs
  pub effects : List Effect

unfoldable pub exit_code : WaitStatus → ℤ
exit_code (exited_with code) = code
exit_code (signaled signal) = pos (128 + signal)
exit_code other = pos 1

-- `multiplexer.finish`, which only Neovim answers to; its error is only printed.
unfoldable pub finish : Option Multiplexer → LoadOutcome → List Effect
finish none outcome = []
finish (some nvim) outcome = report outcome ∷ []
finish (some tmux) outcome = []
finish (some zellij) outcome = []
finish (some wezterm) outcome = []
finish (some kitty) outcome = []
finish (some herdr) outcome = []

abbrev pub is_nushell : Shell → Bool
is_nushell nushell = true
is_nushell bash = false
is_nushell zsh = false
is_nushell fish = false

-- The log and the temporary file as the loop and the child leave them.
abbrev pub write_exported : Option Text → Text → Fs → Fs
write_exported none path fs = fs
write_exported (some s) path fs = put path (some s) fs

unfoldable pub publish_stderr : DaemonContext → Load → Fs → Fs
unfolding rename
publish_stderr ctx l fs =
    if has_content ctx.temp_stderr fs
    then rename l.stderr_renamed ctx.temp_stderr ctx.stderr_file fs
    else fs

-- `outcome` is `Exited(code)` here.
unfoldable pub publish_env : DaemonContext → Load → ℤ → Fs → Fs
unfolding rename remove_file int_eq
publish_env ctx l code fs =
    if has_content ctx.temp_file fs
    then rename l.env_renamed ctx.temp_file ctx.env_file fs
    else if not (int_eq code (pos 0))
    then remove_file ctx.env_file fs
    else fs

unfoldable pub wake_shells : Bool → List ℤ → List Effect
wake_shells anything pids = if anything then map wake pids else []

-- The end of `parent_process` behind a load that was not cancelled.
unfoldable pub publish : DaemonContext → Load → ℤ → Fs → Fs × List Effect
unfolding publish_stderr publish_env wake_shells
publish ctx l code fs =
    let pids = (serve l.connections (initial (is_nushell ctx.shell) ctx.parent_pid)).notify_pids in
    let has_stderr = has_content ctx.temp_stderr fs in
    let fs' = publish_stderr ctx l fs in
    let has_env = has_content ctx.temp_file fs' in
    (publish_env ctx l code fs', wake_shells (has_stderr || has_env) pids)

unfoldable pub after_loop : DaemonContext → Load → Next → Fs → Result
unfolding publish finish exit_code
after_loop ctx l continue fs = record { end = running; fs = fs; effects = [] }
after_loop ctx l (return true) fs =
    let code = exit_code l.wait in
    let (fs', effects) = publish ctx l code fs in
    record { end = returned; fs = fs'; effects = finish ctx.multiplexer (exited code) ++ effects }
after_loop ctx l (return false) fs = record {
  end = returned;
  fs = fs;
  effects = terminate_child ∷ finish ctx.multiplexer cancelled;
}

module _ (mux_delay_ms : ℕ) where
  unfoldable pub parent_process : DaemonContext → Load → Fs → Result
  unfolding after_loop
  parent_process ctx l fs =
      let (next, p) = copy_pty_to_logfile mux_delay_ms ctx.multiplexer l.rounds start in
      let fs' = write_exported l.exported ctx.temp_file fs in
      if l.log_created
      then after_loop ctx l next (put ctx.temp_stderr (some p.log) fs')
      else record { end = exit 1; fs = fs'; effects = terminate_child ∷ [] }

  -- The guard `_cleanup` is dropped when `run_direnv` returns or panics, and not when
  -- `std::process::exit` ends the process.
  abbrev drop_cleanup : DaemonContext → Result → End → Result
  drop_cleanup ctx r running = r
  drop_cleanup ctx r returned = record r { fs = cleanup ctx r.fs }
  drop_cleanup ctx r (exit n) = r
  drop_cleanup ctx r panicked = record r { fs = cleanup ctx r.fs }

  abbrev fork_and_copy : DaemonContext → Load → Fs → Result
  unfolding parent_process
  fork_and_copy ctx l fs =
      if l.forked then parent_process ctx l fs else record { end = exit 1; fs = fs; effects = [] }

  -- `run_direnv` behind `create_temp_files`, on the parent's side of `forkpty`. The listener leaves a
  -- file at the path of the socket.
  unfoldable pub run_load : DaemonContext → Load → Fs → Result
  unfolding fork_and_copy cleanup create
  run_load ctx l fs =
      let r =
        if l.bound
        then fork_and_copy ctx l (create ctx.socket_path fs)
        else record { end = panicked; fs = fs; effects = [] } in
      drop_cleanup ctx r r.end

  abbrev run_with : Option DaemonContext × Fs → Load → Result
  unfolding run_load
  run_with (none, fs) l = record { end = exit 1; fs = fs; effects = [] }
  run_with (some ctx, fs) l = run_load ctx l fs

  -- `run_direnv`, with the two answers of `mkstemp`.
  unfoldable pub run_direnv : DaemonContext → Option Text → Option Text → Load → Fs → Result
  unfolding create_temp_files run_with
  run_direnv ctx suffix suffix_stderr l fs =
      run_with (create_temp_files suffix suffix_stderr ctx fs) l
