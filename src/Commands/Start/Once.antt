-- ===== src/Commands/Start/Once.antt =====
-- Each prompt of bash, zsh and fish is served once by src/commands/start.rs.
use direnv_instant.Prelude.{
  ℕ, Text, text_eq, text_eq_refl, Bool, true, false, ◌&&◌, Option, none, some, is_some, List, [],
  ◌∷◌, ◌++◌, ◌≡◌, ◌≢◌, refl, ◌∙◌, arith, if◌then◌else◌, ◌+◌, ◌==◌,
}
use direnv_instant.Env.{var, var_os_is_some}
use direnv_instant.Shell.{Shell, nushell, bash, zsh, fish, from_env, unset_var, export_var}
use direnv_instant.Mux.Detect.{detect}
use direnv_instant.Daemon.Context.{DaemonContext, new}
use direnv_instant.Daemon.Protocol.{notify_message, detach_message}
use direnv_instant.Commands.{
  World, Event, print, complain, send, probe, unlink, exec_direnv, capture_direnv, write_file,
  daemonize, exit, panicked, path_of, find_envrc, shell_pid, start_daemon, env_file_var,
  stderr_file_var, current_var,
}
use direnv_instant.Commands.Start.{
  run, run_as, run_for, run_direnv_sync, printed, exec, detach_from, join_or_start, with_context,
  in_dir,
}

-- What serves a prompt: direnv in place of the process, a daemon that is started, one that answers,
-- or a failure that ends the process.
abbrev pub weight : World → Event → ℕ
weight w (send path m) = if text_eq m (notify_message (shell_pid w)) && w.notified then 1 else 0
weight w (probe path) = if w.connects then 1 else 0
weight w (exec_direnv shell show_errors) = 1
weight w (daemonize ctx) = 1
weight w (exit code) = if code == 1 then 1 else 0
weight w (print line) = 0
weight w (complain line) = 0
weight w (unlink path) = 0
weight w (capture_direnv show_errors) = 0
weight w (write_file path contents) = 0
weight w panicked = 0

abbrev pub served : World → List Event → ℕ
served w [] = 0
served w (e ∷ es) = weight w e + served w es

served-append : (w : World) (xs ys : List Event) → served w (xs ++ ys) ≡ served w xs + served w ys
served-append w [] ys = omega arith
served-append w (e ∷ xs) ys = omega (arith, served-append w xs ys)

served-export_var :
    (w : World) (shell : Shell) (name value : Text) (es : List Event)
    → shell ≢ nushell
    → served w (printed (export_var shell name value) es) ≡ served w es
unfolding export_var
served-export_var w bash name value es n = omega arith
served-export_var w zsh name value es n = omega arith
served-export_var w fish name value es n = omega arith
served-export_var w nushell name value es n = absurd (n refl)

served-unset_var :
    (w : World) (shell : Shell) (name : Text) (es : List Event)
    → shell ≢ nushell
    → served w (printed (unset_var shell name) es) ≡ served w es
unfolding unset_var
served-unset_var w bash name es n = omega arith
served-unset_var w zsh name es n = omega arith
served-unset_var w fish name es n = omega arith
served-unset_var w nushell name es n = absurd (n refl)

-- Both branches of a test serve the prompt once.
served-if :
    (w : World) (b : Bool) (xs ys : List Event)
    → served w xs ≡ 1
    → served w ys ≡ 1
    → served w (if b then xs else ys) ≡ 1
served-if w true xs ys hx hy = hx
served-if w false xs ys hx hy = hy

module _ (w : World) (shell : Shell) (n : shell ≢ nushell) where
  served-run_direnv_sync : (show_errors : Bool) → served w (run_direnv_sync w shell show_errors) ≡ 1
  unfolding run_direnv_sync
  served-run_direnv_sync show_errors =
      let ended = exec w shell show_errors in
      let second = var_os_is_some w.env stderr_file_var in
      let line = unset_var shell stderr_file_var in
      let once = served-if w w.direnv_found _ _ refl refl in
      let twice =
        served-if w second (printed line ended) ended
          (served-unset_var w shell stderr_file_var ended n ∙ once) once in
      served-if w (var_os_is_some w.env env_file_var)
        (printed (unset_var shell env_file_var) (if second then printed line ended else ended))
        (if second then printed line ended else ended)
        (served-unset_var w shell env_file_var _ n ∙ twice) twice

zero_served : (w : World) (es : List Event) → served w es ≡ 1 → 0 + served w es ≡ 1
zero_served w es h = omega (arith, h)

served-start_daemon : (w : World) (ctx : DaemonContext) → served w (start_daemon w ctx) ≡ 1
unfolding start_daemon
served-start_daemon w ctx = ground arith

module _ (dir_hash : Text → Option Text → ℕ) (w : World) where
  served-detach_from :
      (envrc_dir : Option (List Text)) (current : Option Text)
      → served w (detach_from dir_hash w envrc_dir current) ≡ 0
  unfolding detach_from detach_message notify_message
  served-detach_from envrc_dir none = refl
  served-detach_from envrc_dir (some current) = ground arith

  served-join_or_start : (ctx : DaemonContext) → served w (join_or_start dir_hash w ctx) ≡ 1
  unfolding join_or_start
  served-join_or_start ctx =
      ground (arith, text_eq_refl (notify_message (shell_pid w)), served-start_daemon w ctx)

  module _ (shell : Shell) (n : shell ≢ nushell) where
    served-with_context :
        (ctx : Option DaemonContext) → served w (with_context dir_hash w shell ctx) ≡ 1
    unfolding with_context
    served-with_context none =
        zero_served w (run_direnv_sync w shell true) (served-run_direnv_sync w shell n true)
    served-with_context (some ctx) =
        served-export_var w shell env_file_var ctx.env_file _ n
        ∙ served-export_var w shell stderr_file_var ctx.stderr_file _ n
        ∙ served-join_or_start ctx

    served-in_dir :
        (envrc_dir : Option (List Text)) → served w (in_dir dir_hash w shell envrc_dir) ≡ 1
    unfolding in_dir
    served-in_dir none =
        served-unset_var w shell current_var _ n ∙ served-run_direnv_sync w shell n false
    served-in_dir (some dir) =
        served-export_var w shell current_var (path_of dir) _ n
        ∙ served-if w (is_some (detect w.env)) _ _
            (served-with_context
              (new dir_hash w.env w.made w.permitted (shell_pid w) (path_of dir) shell))
            (served-run_direnv_sync w shell n true)

    served-run_for : served w (run_for dir_hash w shell) ≡ 1
    unfolding run_for
    served-run_for =
        let envrc_dir = find_envrc w.exists w.current_dir in
        let detached = served-detach_from envrc_dir (var w.env current_var) in
        omega (
          arith,
          served-append w (detach_from dir_hash w envrc_dir (var w.env current_var))
              (in_dir dir_hash w shell envrc_dir),
          detached,
          served-in_dir envrc_dir,
        )

  served-run_as : (shell : Shell) → shell ≢ nushell → served w (run_as dir_hash w shell) ≡ 1
  unfolding run_as
  served-run_as nushell n = absurd (n refl)
  served-run_as bash n = served-run_for bash n
  served-run_as zsh n = served-run_for zsh n
  served-run_as fish n = served-run_for fish n

  -- A start command of bash, zsh or fish serves its prompt exactly once: it becomes direnv, or
  -- starts a daemon, or a daemon that runs has answered it, or it exits with status 1; it does no
  -- two of these, and never ends without one, as a panic or an exit with another status would.
  pub served-run : from_env w.env ≢ nushell → served w (run dir_hash w) ≡ 1
  unfolding run
  served-run n = served-run_as (from_env w.env) n
