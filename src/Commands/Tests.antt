-- ===== src/Commands/Tests.antt =====
-- The commands of src/commands at concrete prompts.
use direnv_instant.Prelude.{
  ℕ, Text, codes, text_eq, pos, int_eq, display, parse_i32, Bool, true, false, Option, none, some,
  List, [], ◌∷◌, ◌++◌, ◌≡◌, ◌≢◌, ◌↔◌, refl, arith, if◌then◌else◌, IsI32, All,
}
use direnv_instant.Env.{Env, unset, value}
use direnv_instant.Shell.{nushell, from_env}
use direnv_instant.Daemon.Context.{get_socket_path}
use direnv_instant.Daemon.Protocol.{detach_message}
use direnv_instant.Daemon.Registry.{Shared, contains, serve}
use direnv_instant.Daemon.Registry.Pids.{NodupPids}
use direnv_instant.Commands.{
  World, shell_pid, path_of, has_envrc, find_envrc, same_path, NoneBelow, find_envrc-nearest,
}
use direnv_instant.Commands.Start.{run}
use direnv_instant.Commands.Stop.{run_stop}
use direnv_instant.Commands.Start.Once.{served, served-run}
use direnv_instant.Commands.Start.Others.{
  Act, start_as, stop_as, pid_of, IsJobShell, history, received_at, serve-history,
}
use direnv_instant.Commands.Start.Directory.{serve-run_nushell}

-- A stand-in for the hash of the standard library.
abbrev pub hash : Text → Option Text → ℕ
hash dir session = 7

-- `/p/q` with an .envrc in `/p`.
abbrev exists : Text → Bool
exists path = text_eq path (codes "/p/.envrc")

abbrev dir : List Text
dir = codes "q" ∷ codes "p" ∷ []

-- A shell of pid 77 that comes from `/old`.
abbrev env_of : Text → Env
env_of shell key =
    if text_eq key (codes "DIRENV_INSTANT_SHELL")
    then value shell
    else if text_eq key (codes "DIRENV_INSTANT_SHELL_PID")
    then value (codes "77")
    else if text_eq key (codes "__DIRENV_INSTANT_CURRENT_DIR")
    then value (codes "/old")
    else if text_eq key (codes "TMUX")
    then value (codes "1")
    else unset

abbrev pub world : Text → World
world shell = record {
  env = env_of shell;
  parent = pos 1;
  current_dir = some dir;
  exists = exists;
  made = true;
  permitted = true;
  notified = false;
  still_exists = false;
  connects = false;
  forks = true;
  direnv_found = true;
  output = none;
  written = true;
  temp_file = codes "/tmp/direnv-instant-nu-9.json";
  reachable = false;
}

components_ignored : same_path (codes "/p//q/./") (codes "/p/q") ≡ true
unfolding same_path
components_ignored = refl

components_kept : same_path (codes "/p/../q") (codes "/q") ≡ false
unfolding same_path
components_kept = refl

find_envrc-nearest_example : (find_envrc exists (some dir) ≡ some (codes "p" ∷ [])) ↔ (
    (has_envrc exists (codes "p" ∷ []) ≡ true)
    × ((below : List Text) × (dir ≡ below ++ codes "p" ∷ [])
        × NoneBelow exists below (codes "p" ∷ [])))
find_envrc-nearest_example = find_envrc-nearest exists dir (codes "p" ∷ [])

zsh_is_job_shell : from_env (world (codes "zsh")).env ≢ nushell
unfolding from_env
zsh_is_job_shell = λ e. cc

served-run_example : served (world (codes "zsh")) (run hash (world (codes "zsh"))) ≡ 1
served-run_example = served-run hash (world (codes "zsh")) zsh_is_job_shell

abbrev path : Text
path = codes "/tmp/direnv-instant/7/daemon.sock"

abbrev acts : List Act
acts = start_as (world (codes "zsh")) ∷ stop_as (world (codes "zsh")) ∷ []

pid_77 : pid_of (stop_as (world (codes "zsh"))) ≡ pos 77
unfolding shell_pid parse_i32
pid_77 = refl

acts_others : All (λ a. IsI32 (pid_of a) × (pid_of a ≢ pos 42) × IsJobShell a) acts
unfolding shell_pid parse_i32 from_env
acts_others = ((omega arith, λ e. cc, λ e. cc), ((omega arith, λ e. cc, tt), tt))

-- The daemon reads a detach, and nothing else of the shell that has left for another directory.
history_read : history hash path acts ≡ some (codes "STOP 77\n") ∷ some (codes "STOP 77\n") ∷ []
unfolding run from_env shell_pid parse_i32 detach_message get_socket_path run_stop display
history_read = refl

abbrev shells : Shared
shells = record { notify_pids = pos 42 ∷ pos 77 ∷ []; should_stop = false; pty_master = none }

shells-NodupPids : NodupPids shells.notify_pids
unfolding contains int_eq
shells-NodupPids = (refl, (refl, tt))

serve-history_example :
    ((serve (history hash path acts) shells).should_stop ≡ false)
    × (contains (serve (history hash path acts) shells).notify_pids (pos 42) ≡ true)
unfolding contains int_eq
serve-history_example =
    serve-history hash path (pos 42) acts shells acts_others shells-NodupPids refl refl

nu_is_nushell : from_env (world (codes "nu")).env ≡ nushell
unfolding from_env
nu_is_nushell = refl

nu_found : find_envrc exists (some dir) ≡ some (codes "p" ∷ [])
unfolding find_envrc
nu_found = refl

nu_moved : same_path (codes "/old") (path_of (codes "p" ∷ [])) ≡ false
unfolding same_path path_of
nu_moved = refl

serve-run_nushell_example :
    (serve
      (received_at
        (get_socket_path hash (env_of (codes "nu")) (codes "/old"))
        (run hash (world (codes "nu"))))
      shells).should_stop
    ≡ true
serve-run_nushell_example =
    serve-run_nushell hash (world (codes "nu")) (codes "p" ∷ []) (codes "/old") shells nu_is_nushell
      nu_found refl nu_moved
