-- ===== src/Commands.antt =====
-- What the commands of src/commands share: the calls that a command makes, what the world answers to
-- them, the directory of the .envrc, and `start_daemon` of src/daemon.rs.
pub mod Envrc
pub mod Start
pub mod Nushell
pub mod Stop
pub mod Watch
pub mod Main
pub mod Tests
unfoldable pub use Envrc.*
use direnv_instant.Prelude.{
  ℕ, Text, codes, ℤ, parse_i32, Bool, true, false, not, Option, none, some, List, [], ◌∷◌, ◌++◌,
  if◌then◌else◌, ◌>>=◌,
}
use direnv_instant.Env.{Env, var}
use direnv_instant.Shell.{Shell}
use direnv_instant.Daemon.Files.{join}
use direnv_instant.Daemon.Context.{DaemonContext}

abbrev pub current_var : Text
current_var = codes "__DIRENV_INSTANT_CURRENT_DIR"

abbrev pub env_file_var : Text
env_file_var = codes "__DIRENV_INSTANT_ENV_FILE"

abbrev pub stderr_file_var : Text
stderr_file_var = codes "__DIRENV_INSTANT_STDERR_FILE"

-- What a command does to the world, in order.
pub data Event : Type 0 where
  print : Text → Event  -- a line on stdout
  complain : Text → Event  -- a line on stderr
  send : Text → Text → Event  -- a message that is written to the socket at a path
  probe : Text → Event  -- a connection to the socket at a path, without a message
  unlink : Text → Event
  exec_direnv : Shell → Bool → Event  -- the process becomes `direnv export`; are errors shown
  capture_direnv : Bool → Event  -- `direnv export json` runs to its end; are errors shown
  write_file : Text → Text → Event
  daemonize : DaemonContext → Event
  exit : ℕ → Event
  panicked : Event

-- What the calls of one prompt answer.
pub record World : Type 0 where
  pub env : Env
  pub parent : ℤ  -- `getppid`
  pub current_dir : Option (List Text)  -- the components, the innermost first
  pub exists : Text → Bool
  pub made : Bool  -- `create_dir_all`
  pub permitted : Bool  -- `set_permissions`
  pub notified : Bool  -- whether `notify_daemon` reaches a daemon
  pub still_exists : Bool  -- whether the socket is there when `start_daemon` looks
  pub connects : Bool  -- and whether it can be connected to
  pub forks : Bool  -- the first `fork`
  pub direnv_found : Bool  -- `Command::exec`
  pub output : Option (Bool × Text)  -- `Command::output`: did direnv succeed, and its stdout
  pub written : Bool  -- `std::fs::write`
  pub temp_file : Text  -- the file in the temporary directory that has the process's id in its name
  pub reachable : Bool  -- whether the start command for Nushell can connect to the socket

-- `env::var("DIRENV_INSTANT_SHELL_PID").ok().and_then(|s| s.parse().ok())`, or else `getppid`
abbrev pid_or : ℤ → Option ℤ → ℤ
pid_or parent none = parent
pid_or parent (some pid) = pid

unfoldable pub shell_pid : World → ℤ
unfolding parse_i32
shell_pid w = pid_or w.parent (var w.env (codes "DIRENV_INSTANT_SHELL_PID") >>= parse_i32)

-- `start_daemon`, in the process that calls it.
abbrev fork_daemon : World → DaemonContext → List Event
fork_daemon w ctx =
    if w.forks
    then daemonize ctx ∷ []
    else complain (codes "direnv-instant: First fork failed: ") ∷ exit 1 ∷ []

unfoldable pub start_daemon : World → DaemonContext → List Event
start_daemon w ctx =
    if w.still_exists
    then if w.connects
      then probe ctx.socket_path ∷ []
      else probe ctx.socket_path ∷ unlink ctx.socket_path ∷ fork_daemon w ctx
    else fork_daemon w ctx
