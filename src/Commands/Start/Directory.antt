-- ===== src/Commands/Start/Directory.antt =====
-- What src/nushell.rs sends to the daemon of the directory that a Nushell leaves.
use direnv_instant.Prelude.{
  ℕ, Text, text_eq_refl, true, false, Option, some, List, [], ◌∷◌, ◌++◌, ◌≡◌, refl, ap, ◌∙◌,
}
use direnv_instant.Env.{var}
use direnv_instant.Shell.{nushell, from_env}
use direnv_instant.Daemon.Context.{get_socket_path}
use direnv_instant.Daemon.Protocol.{stop_message}
use direnv_instant.Daemon.Registry.{Shared, handle_connection, serve}
use direnv_instant.Daemon.Registry.Stopping.{serve_stopped}
use direnv_instant.Commands.{
  World, Event, send, path_of, find_envrc, same_path, shell_pid, current_var,
}
use direnv_instant.Commands.Nushell.{run_nushell, run_in, in_envrc, stop_other, loading}
use direnv_instant.Commands.Start.{run, run_as}
use direnv_instant.Commands.Start.Others.{received_at}

stop_stops : (s : Shared) → (handle_connection (some stop_message) true s).0.should_stop ≡ true
unfolding handle_connection stop_message
stop_stops s = refl

serve_stop :
    (cs : List (Option Text)) (s : Shared) → (serve (some stop_message ∷ cs) s).should_stop ≡ true
unfolding serve
serve_stop cs s = serve_stopped cs (handle_connection (some stop_message) true s).0 (stop_stops s)

received_first :
    (path m : Text) (es : List Event)
    → received_at path (send path m ∷ es) ≡ some m ∷ received_at path es
received_first path m es = rw (text_eq_refl path)

pub serve_first :
    (path : Text) (es rest : List Event) (s : Shared)
    → es ≡ send path stop_message ∷ rest
    → (serve (received_at path es) s).should_stop ≡ true
serve_first path es rest s e =
    ap (λ cs. (serve cs s).should_stop)
      (ap (received_at path) e ∙ received_first path stop_message rest)
    ∙ serve_stop (received_at path rest) s

module _ (dir_hash : Text → Option Text → ℕ) (w : World) (dir : List Text) (current : Text) where
  stop_other_lem :
      same_path current (path_of dir) ≡ false
      → stop_other dir_hash w dir (some current)
        ≡ send (get_socket_path dir_hash w.env current) stop_message ∷ []
  stop_other_lem other = rw (other)

  in_envrc_lem :
      var w.env current_var ≡ some current
      → same_path current (path_of dir) ≡ false
      → in_envrc dir_hash w (shell_pid w) dir
        ≡ send (get_socket_path dir_hash w.env current) stop_message
          ∷ loading dir_hash w (shell_pid w) dir
  in_envrc_lem was other =
      ap (λ xs. xs ++ loading dir_hash w (shell_pid w) dir)
        (ap (stop_other dir_hash w dir) was ∙ stop_other_lem other)

  run_nushell_lem :
      from_env w.env ≡ nushell
      → find_envrc w.exists w.current_dir ≡ some dir
      → run dir_hash w ≡ in_envrc dir_hash w (shell_pid w) dir
  unfolding run run_as run_nushell
  run_nushell_lem nu found = ap (run_as dir_hash w) nu ∙ ap (run_in dir_hash w (shell_pid w)) found

  -- A Nushell that comes to a directory with an .envrc from another directory stops the daemon of
  -- that other directory, whatever shells are registered with it.
  pub serve-run_nushell :
      (s : Shared)
      → from_env w.env ≡ nushell
      → find_envrc w.exists w.current_dir ≡ some dir
      → var w.env current_var ≡ some current
      → same_path current (path_of dir) ≡ false
      → (serve
          (received_at (get_socket_path dir_hash w.env current) (run dir_hash w))
          s).should_stop
        ≡ true
  serve-run_nushell s nu found was other =
      serve_first (get_socket_path dir_hash w.env current) (run dir_hash w)
        (loading dir_hash w (shell_pid w) dir) s (run_nushell_lem nu found ∙ in_envrc_lem was other)
