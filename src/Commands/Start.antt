-- ===== src/Commands/Start.antt =====
-- src/commands/start.rs for bash, zsh and fish: what a prompt prints, sends and starts.
pub mod Messages
pub mod Others
pub mod Once
pub mod Directory
pub mod Load
pub mod Tests
use direnv_instant.Prelude.{
  ℕ, Text, codes, ℤ, Bool, true, false, not, Option, none, some, is_some, List, [], ◌∷◌, ◌++◌,
  if◌then◌else◌,
}
use direnv_instant.Env.{Env, var, var_os_is_some}
use direnv_instant.Shell.{Shell, bash, zsh, fish, nushell, from_env, export_var, unset_var}
use direnv_instant.Mux.Detect.{detect}
use direnv_instant.Daemon.Context.{DaemonContext, get_socket_path, new}
use direnv_instant.Daemon.Protocol.{notify_message, detach_message}
use direnv_instant.Commands.Nushell.{run_nushell}
use direnv_instant.Commands.{
  World, Event, print, complain, send, exec_direnv, exit, panicked, path_of, find_envrc, same_path,
  shell_pid, start_daemon, current_var, env_file_var, stderr_file_var,
}

-- A printed statement and what follows it; without a statement, `unreachable!` has panicked.
abbrev pub printed : Option Text → List Event → List Event
printed none rest = panicked ∷ []
printed (some line) rest = print line ∷ rest

abbrev unset_if_present : Env → Shell → Text → List Event → List Event
unfolding unset_var
unset_if_present env shell name rest =
    if var_os_is_some env name then printed (unset_var shell name) rest else rest

abbrev pub exec : World → Shell → Bool → List Event
exec w shell show_errors =
    if w.direnv_found
    then exec_direnv shell show_errors ∷ []
    else complain (codes "direnv-instant: Failed to exec direnv: ") ∷ exit 1 ∷ []

unfoldable pub run_direnv_sync : World → Shell → Bool → List Event
unfolding unset_if_present
run_direnv_sync w shell show_errors =
    unset_if_present w.env shell env_file_var
      (unset_if_present w.env shell stderr_file_var (exec w shell show_errors))

-- `envrc_dir.as_ref() != Some(&current_dir)`
abbrev pub is_at : Option (List Text) → Text → Bool
unfolding path_of same_path
is_at none current = false
is_at (some dir) current = same_path (path_of dir) current

module _ (dir_hash : Text → Option Text → ℕ) where
  -- The detach from the daemon of another directory.
  abbrev pub detach_from : World → Option (List Text) → Option Text → List Event
  unfolding get_socket_path shell_pid detach_message is_at
  detach_from w envrc_dir none = []
  detach_from w envrc_dir (some current) =
      if is_at envrc_dir current
      then []
      else send (get_socket_path dir_hash w.env current) (detach_message (shell_pid w)) ∷ []

  -- The daemon that answers is notified, and any other is started.
  abbrev pub join_or_start : World → DaemonContext → List Event
  unfolding shell_pid notify_message start_daemon
  join_or_start w ctx =
      let notice = send ctx.socket_path (notify_message (shell_pid w)) in
      if w.exists ctx.socket_path
      then if w.notified then notice ∷ [] else notice ∷ start_daemon w ctx
      else start_daemon w ctx

  abbrev pub with_context : World → Shell → Option DaemonContext → List Event
  unfolding export_var run_direnv_sync join_or_start
  with_context w shell none =
      complain (codes "direnv-instant: Failed to create runtime dir: ")
      ∷ run_direnv_sync w shell true
  with_context w shell (some ctx) =
      printed (export_var shell env_file_var ctx.env_file)
        (printed (export_var shell stderr_file_var ctx.stderr_file) (join_or_start w ctx))

  abbrev pub in_dir : World → Shell → Option (List Text) → List Event
  unfolding with_context unset_var export_var run_direnv_sync detect new shell_pid path_of
  in_dir w shell none = printed (unset_var shell current_var) (run_direnv_sync w shell false)
  in_dir w shell (some dir) = printed (export_var shell current_var (path_of dir)) (
      if is_some (detect w.env)
      then with_context w shell
          (new dir_hash w.env w.made w.permitted (shell_pid w) (path_of dir) shell)
      else run_direnv_sync w shell true)

  -- `run` for every shell but Nushell.
  unfoldable pub run_for : World → Shell → List Event
  unfolding detach_from in_dir find_envrc
  run_for w shell =
      let envrc_dir = find_envrc w.exists w.current_dir in
      detach_from w envrc_dir (var w.env current_var) ++ in_dir w shell envrc_dir

  abbrev pub run_as : World → Shell → List Event
  unfolding shell_pid run_nushell run_for
  run_as w nushell = run_nushell dir_hash w (shell_pid w)
  run_as w bash = run_for w bash
  run_as w zsh = run_for w zsh
  run_as w fish = run_for w fish

  -- `run`
  unfoldable pub run : World → List Event
  unfolding from_env run_as
  run w = run_as w (from_env w.env)
