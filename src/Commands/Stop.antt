-- ===== src/Commands/Stop.antt =====
-- src/commands/stop.rs: a shell that exits leaves the daemon of its directory.
use direnv_instant.Prelude.{Text, ℕ, Option, none, some, List, [], ◌∷◌}
use direnv_instant.Env.{var}
use direnv_instant.Daemon.Context.{get_socket_path}
use direnv_instant.Daemon.Protocol.{detach_message}
use direnv_instant.Commands.{World, Event, send, shell_pid, current_var}

module _ (dir_hash : Text → Option Text → ℕ) where
  abbrev pub leave : World → Option Text → List Event
  leave w none = []
  leave w (some dir) = send (get_socket_path dir_hash w.env dir) (detach_message (shell_pid w)) ∷ []

  -- `run`
  unfoldable pub run_stop : World → List Event
  run_stop w = leave w (var w.env current_var)
