-- ===== src/Daemon/Context.antt =====
-- The runtime directory and `DaemonContext` of src/daemon.rs.
pub mod Names
use direnv_instant.Prelude.{
  ℕ, Text, codes, ℤ, Bool, true, false, Option, none, some, [], ◌∷◌, ◌++◌, ◌≡◌, ◌≢◌, refl, arith,
  if◌then◌else◌,
}
use direnv_instant.Env.{Env, var}
use direnv_instant.Shell.{Shell}
use direnv_instant.Mux.Detect.{Multiplexer, detect, session_key}
use direnv_instant.Daemon.Files.{join, hex, Fs, create, remove_file}

pub data LoadOutcome : Type 0 where
  exited : ℤ → LoadOutcome
  cancelled : LoadOutcome

pub record DaemonContext : Type 0 where
  pub parent_pid : ℤ
  pub envrc_dir : Text
  pub runtime_dir : Text
  pub socket_path : Text
  pub env_file : Text
  pub stderr_file : Text
  pub temp_file : Text
  pub temp_stderr : Text
  pub multiplexer : Option Multiplexer
  pub shell : Shell

abbrev home_cache : Option Text → Text
unfolding join
home_cache (some home) = join home (codes ".cache")
home_cache none = codes "/tmp"

abbrev cache_base_of : Option Text → Option Text → Text
unfolding home_cache
cache_base_of (some dir) home = dir
cache_base_of none home = home_cache home

unfoldable pub cache_base : Env → Text
unfolding cache_base_of
cache_base env = cache_base_of (var env (codes "XDG_CACHE_HOME")) (var env (codes "HOME"))

-- The hash of the directory, and of the session where there is one, is the standard library's
-- `DefaultHasher`, whose algorithm is not fixed.
module _ (dir_hash : Text → Option Text → ℕ) where
  unfoldable pub get_runtime_dir : Env → Text → Text
  unfolding join hex cache_base session_key
  get_runtime_dir env envrc_dir =
      join (join (cache_base env) (codes "direnv-instant"))
        (hex (dir_hash envrc_dir (session_key env)))

  unfoldable pub get_socket_path : Env → Text → Text
  unfolding join get_runtime_dir
  get_socket_path env envrc_dir = join (get_runtime_dir env envrc_dir) (codes "daemon.sock")

  -- `DaemonContext::new`; `made` and `permitted` say whether `create_dir_all` and `set_permissions`
  -- succeed, and the error of either is returned.
  unfoldable pub new : Env → Bool → Bool → ℤ → Text → Shell → Option DaemonContext
  unfolding join get_runtime_dir detect
  new env made permitted parent_pid envrc_dir shell =
      let runtime_dir = get_runtime_dir env envrc_dir in
      if made
      then if permitted
        then some (record {
          parent_pid = parent_pid;
          envrc_dir = envrc_dir;
          runtime_dir = runtime_dir;
          socket_path = join runtime_dir (codes "daemon.sock");
          env_file = join runtime_dir (codes "env");
          stderr_file = join runtime_dir (codes "env.stderr");
          temp_file = [];
          temp_stderr = [];
          multiplexer = detect env;
          shell = shell;
        })
        else none
      else none

-- `create_temp_file`: `mkstemp` answers with the six characters that it put for the `X`s, and has
-- created the file, or fails.
unfoldable pub create_temp_file : Option Text → Text → Text → Fs → Option (Text × Fs)
unfolding join create
create_temp_file none runtime_dir prefix fs = none
create_temp_file (some suffix) runtime_dir prefix fs =
    let path = join runtime_dir (prefix ++ codes "." ++ suffix) in some (path, create path fs)

abbrev second_temp : Option Text → DaemonContext → Text → Fs → Option DaemonContext × Fs
unfolding create_temp_file
second_temp suffix ctx temp_file fs =
    elim (create_temp_file suffix ctx.runtime_dir (codes "env_stderr") fs) [
      | none ↦ (none, fs)
      | some (temp_stderr, fs') ↦
          (some (record ctx { temp_file = temp_file; temp_stderr = temp_stderr }), fs')
    ]

-- `create_temp_files`: `none` is the error of `mkstemp`, and the file system is what the calls so far
-- have left.
unfoldable pub create_temp_files :
    Option Text → Option Text → DaemonContext → Fs → Option DaemonContext × Fs
unfolding create_temp_file second_temp
create_temp_files suffix suffix_stderr ctx fs =
    elim (create_temp_file suffix ctx.runtime_dir (codes "env") fs) [
      | none ↦ (none, fs)
      | some (temp_file, fs') ↦ second_temp suffix_stderr ctx temp_file fs'
    ]

-- `Cleanup::drop`
unfoldable pub cleanup : DaemonContext → Fs → Fs
unfolding remove_file
cleanup ctx fs =
    remove_file ctx.temp_stderr (remove_file ctx.temp_file (remove_file ctx.socket_path fs))
