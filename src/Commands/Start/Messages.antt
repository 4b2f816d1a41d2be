-- ===== src/Commands/Start/Messages.antt =====
-- The messages that the start and stop commands of src/commands write to daemons.
use direnv_instant.Prelude.{
  ℕ, Text, ℤ, Bool, true, false, Option, none, some, is_some, List, ◌≡◌, refl, if◌then◌else◌, ◌⊎◌,
  inl, inr, All, All-append,
}
use direnv_instant.Env.{var, var_os_is_some}
use direnv_instant.Shell.{Shell, unset_var, export_var}
use direnv_instant.Mux.Detect.{detect}
use direnv_instant.Daemon.Context.{DaemonContext, new}
use direnv_instant.Daemon.Protocol.{notify_message, detach_message}
use direnv_instant.Commands.{
  World, Event, print, complain, send, probe, unlink, exec_direnv, capture_direnv, write_file,
  daemonize, exit, panicked, path_of, find_envrc, shell_pid, start_daemon, env_file_var,
  stderr_file_var, current_var,
}
use direnv_instant.Commands.Start.{
  run_for, run_direnv_sync, printed, exec, detach_from, join_or_start, with_context, in_dir, is_at,
}
use direnv_instant.Commands.Stop.{leave}

-- A message that a shell sends for itself.
abbrev pub Polite : ℤ → Event → Type 0
Polite pid (send q m) = (m ≡ notify_message pid) ⊎ (m ≡ detach_message pid)
Polite pid (probe q) = Unit
Polite pid (print line) = Unit
Polite pid (complain line) = Unit
Polite pid (unlink q) = Unit
Polite pid (exec_direnv shell show_errors) = Unit
Polite pid (daemonize ctx) = Unit
Polite pid (capture_direnv show_errors) = Unit
Polite pid (write_file q contents) = Unit
Polite pid (exit code) = Unit
Polite pid panicked = Unit

All-printed :
    (pid : ℤ) (o : Option Text) (es : List Event)
    → All (Polite pid) es
    → All (Polite pid) (printed o es)
All-printed pid none es h = (tt, tt)
All-printed pid (some line) es h = (tt, h)

All-if :
    (pid : ℤ) (b : Bool) (xs ys : List Event)
    → All (Polite pid) xs
    → All (Polite pid) ys
    → All (Polite pid) (if b then xs else ys)
All-if pid true xs ys hx hy = hx
All-if pid false xs ys hx hy = hy

unset-Polite :
    (pid : ℤ) (b : Bool) (o : Option Text) (es : List Event)
    → All (Polite pid) es
    → All (Polite pid) (if b then printed o es else es)
unset-Polite pid b o es h = All-if pid b (printed o es) es (All-printed pid o es h) h

exec-Polite :
    (pid : ℤ) (w : World) (shell : Shell) (show_errors : Bool)
    → All (Polite pid) (exec w shell show_errors)
exec-Polite pid w shell show_errors = All-if pid w.direnv_found _ _ (tt, tt) (tt, (tt, tt))

run_direnv_sync-Polite :
    (pid : ℤ) (w : World) (shell : Shell) (show_errors : Bool)
    → All (Polite pid) (run_direnv_sync w shell show_errors)
unfolding run_direnv_sync
run_direnv_sync-Polite pid w shell show_errors =
    let ended = exec w shell show_errors in
    let second = var_os_is_some w.env stderr_file_var in
    let line = unset_var shell stderr_file_var in
    unset-Polite pid (var_os_is_some w.env env_file_var) (unset_var shell env_file_var)
      (if second then printed line ended else ended)
      (unset-Polite pid second line ended (exec-Polite pid w shell show_errors))

start_daemon-Polite :
    (pid : ℤ) (w : World) (ctx : DaemonContext) → All (Polite pid) (start_daemon w ctx)
unfolding start_daemon
start_daemon-Polite pid w ctx =
    let forked = All-if pid w.forks _ _ (tt, tt) (tt, (tt, tt)) in
    All-if pid w.still_exists _ _ (All-if pid w.connects _ _ (tt, tt) (tt, (tt, forked))) forked

module _ (dir_hash : Text → Option Text → ℕ) where
  detach_from-Polite :
      (w : World) (envrc_dir : Option (List Text)) (current : Option Text)
      → All (Polite (shell_pid w)) (detach_from dir_hash w envrc_dir current)
  unfolding detach_from
  detach_from-Polite w envrc_dir none = tt
  detach_from-Polite w envrc_dir (some current) =
      All-if (shell_pid w) (is_at envrc_dir current) _ _ tt (inr refl, tt)

  join_or_start-Polite :
      (w : World) (ctx : DaemonContext) → All (Polite (shell_pid w)) (join_or_start dir_hash w ctx)
  unfolding join_or_start
  join_or_start-Polite w ctx =
      All-if (shell_pid w) (w.exists ctx.socket_path) _ _
        (All-if (shell_pid w) w.notified _ _ (inl refl, tt)
          (inl refl, start_daemon-Polite (shell_pid w) w ctx))
        (start_daemon-Polite (shell_pid w) w ctx)

  with_context-Polite :
      (w : World) (shell : Shell) (ctx : Option DaemonContext)
      → All (Polite (shell_pid w)) (with_context dir_hash w shell ctx)
  unfolding with_context
  with_context-Polite w shell none = (tt, run_direnv_sync-Polite (shell_pid w) w shell true)
  with_context-Polite w shell (some ctx) =
      All-printed (shell_pid w) (export_var shell env_file_var ctx.env_file) _ (
        All-printed (shell_pid w) (export_var shell stderr_file_var ctx.stderr_file) _
          (join_or_start-Polite w ctx))

  in_dir-Polite :
      (w : World) (shell : Shell) (envrc_dir : Option (List Text))
      → All (Polite (shell_pid w)) (in_dir dir_hash w shell envrc_dir)
  unfolding in_dir
  in_dir-Polite w shell none =
      All-printed (shell_pid w) (unset_var shell current_var) _
        (run_direnv_sync-Polite (shell_pid w) w shell false)
  in_dir-Polite w shell (some dir) =
      All-printed (shell_pid w) (export_var shell current_var (path_of dir)) _ (
        All-if (shell_pid w) (is_some (detect w.env)) _ _
          (with_context-Polite w shell
            (new dir_hash w.env w.made w.permitted (shell_pid w) (path_of dir) shell))
          (run_direnv_sync-Polite (shell_pid w) w shell true))

  pub run_for-Polite :
      (w : World) (shell : Shell) → All (Polite (shell_pid w)) (run_for dir_hash w shell)
  unfolding run_for
  run_for-Polite w shell =
      let envrc_dir = find_envrc w.exists w.current_dir in
      All-append (Polite (shell_pid w)) (detach_from dir_hash w envrc_dir (var w.env current_var)) _
        (detach_from-Polite w envrc_dir (var w.env current_var)) (in_dir-Polite w shell envrc_dir)

  pub leave-Polite :
      (w : World) (dir : Option Text) → All (Polite (shell_pid w)) (leave dir_hash w dir)
  leave-Polite w none = tt
  leave-Polite w (some dir) = (inr refl, tt)
