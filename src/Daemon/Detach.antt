-- ===== src/Daemon/Detach.antt =====
-- The child's side of `start_daemon` of src/daemon.rs: leaving the session of the shell, and what the
-- daemon's standard streams become.
use direnv_instant.Prelude.{Text, codes, Bool, false, Option, none, some, ◌≡◌, arith, if◌then◌else◌}
use direnv_instant.Env.{Env, var}

-- Where a stream goes: to what it was in the shell's command, or to a file.
pub data Stream : Type 0 where
  inherited : Stream
  devnull : Stream
  file : Text → Stream

pub record Streams : Type 0 where
  pub stdin : Stream
  pub stdout : Stream
  pub stderr : Stream

-- What the calls answer.
pub record Calls : Type 0 where
  pub setsid : Bool
  pub forks : Bool  -- the second fork
  pub opens_devnull : Bool
  pub dups_stdin : Bool
  pub creates_log : Bool
  pub dups_stdout : Bool
  pub dups_stderr : Bool

pub data Detached : Type 0 where
  panicked : Detached
  second_fork_failed : Detached  -- exit status 1
  runs : Streams → Detached  -- `run_direnv` with these streams

abbrev to : Bool → Stream → Stream
to dups s = if dups then s else inherited

abbrev redirect_output : Calls → Option Text → Detached
redirect_output c none =
    if c.dups_stdout
    then if c.dups_stderr
      then runs (record { stdin = devnull; stdout = devnull; stderr = devnull })
      else panicked
    else panicked
redirect_output c (some debug_log) =
    if c.creates_log
    then runs (record {
      stdin = devnull;
      stdout = to c.dups_stdout (file debug_log);
      stderr = to c.dups_stderr (file debug_log);
    })
    else runs (record { stdin = devnull; stdout = inherited; stderr = inherited })

abbrev pub redirect : Calls → Option Text → Detached
redirect c debug_log =
    if c.opens_devnull
    then if c.dups_stdin then redirect_output c debug_log else panicked
    else panicked

-- The grandchild; its parent exits with status 0.
unfoldable pub detached : Env → Calls → Detached
detached env c =
    if c.setsid
    then if c.forks
      then redirect c (var env (codes "DIRENV_INSTANT_DEBUG_LOG"))
      else second_fork_failed
    else panicked

-- A daemon without a debug log runs only with all three streams on the null device.
detached-silent :
    (env : Env) (c : Calls) (s : Streams)
    → var env (codes "DIRENV_INSTANT_DEBUG_LOG") ≡ none
    → detached env c ≡ runs s
    → (s.stdin ≡ devnull) × (s.stdout ≡ devnull) × (s.stderr ≡ devnull)
unfolding detached
detached-silent env c s unset h = ground arith

-- A daemon whose debug log cannot be created keeps the standard output and the standard error of the
-- command that the shell waits for.
pub detached-inherits :
    (env : Env) (c : Calls) (path : Text)
    → var env (codes "DIRENV_INSTANT_DEBUG_LOG") ≡ some path
    → c.creates_log ≡ false
    → (s : Streams) → detached env c ≡ runs s
    → (s.stdout ≡ inherited) × (s.stderr ≡ inherited)
unfolding detached
detached-inherits env c path set lost s h = ground arith
