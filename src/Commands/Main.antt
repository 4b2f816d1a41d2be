-- ===== src/Commands/Main.antt =====
-- src/main.rs and src/commands/hook.rs: which command the arguments ask for.
pub mod Usage
pub mod Tests
use direnv_instant.Prelude.{
  ℕ, zero, suc, Text, codes, text_eq, Bool, true, false, ◌||◌, Option, none, some, List, [], ◌∷◌,
  ◌++◌, if◌then◌else◌, length, ltb,
}
use direnv_instant.Commands.{World, Event, print, complain, exit, panicked}
use direnv_instant.Commands.Start.{run}
use direnv_instant.Commands.Stop.{run_stop}

-- `args.get(i)`
abbrev pub get_elem? {ℓ} : {A : Type ℓ} → List A → ℕ → Option A
get_elem? [] i = none
get_elem? (x ∷ xs) zero = some x
get_elem? (x ∷ xs) (suc i) = get_elem? xs i

pub data Dispatch : Type 0 where
  to_start : Dispatch
  to_stop : Dispatch
  to_watch : Text → Text → Dispatch  -- the paths of the log and of the socket
  to_hook : Text → Dispatch
  usage : Text → Dispatch  -- a line on stderr and exit status 1
  out_of_bounds : Dispatch  -- an index past the end of the arguments, which panics

abbrev usage_line : Option Text → Text → Dispatch
usage_line none line = out_of_bounds
usage_line (some name) line = usage (codes "Usage: " ++ (name ++ (codes " " ++ line)))

abbrev with_two : Option Text → Option Text → Dispatch
with_two none second = out_of_bounds
with_two (some first) none = out_of_bounds
with_two (some first) (some second) = to_watch first second

abbrev with_one : Option Text → Dispatch
with_one none = out_of_bounds
with_one (some shell) = to_hook shell

abbrev pub on_command : List Text → Option Text → Dispatch
on_command args none = usage_line (get_elem? args 0) (codes "<start|stop|watch|hook>")
on_command args (some command) =
    if text_eq command (codes "start")
    then to_start
    else if text_eq command (codes "stop")
    then to_stop
    else if text_eq command (codes "watch")
    then if ltb (length args) 4
      then usage_line (get_elem? args 0) (codes "watch <fifo_path> <socket_path>")
      else with_two (get_elem? args 2) (get_elem? args 3)
    else if text_eq command (codes "hook")
    then if ltb (length args) 3
      then usage_line (get_elem? args 0) (codes "hook <bash|zsh|fish>")
      else with_one (get_elem? args 2)
    else usage_line (get_elem? args 0) (codes "<start|stop|watch|hook>")

-- The `match` of `main`.
unfoldable pub dispatch : List Text → Dispatch
dispatch args = on_command args (get_elem? args 1)

-- The scripts of the folder hooks, which the build includes.
pub record Hooks : Type 0 where
  pub zsh_script : Text
  pub bash_script : Text
  pub fish_script : Text
  pub nushell_script : Text

unfoldable pub hook_script : Hooks → Text → Option Text
hook_script hooks shell =
    if text_eq shell (codes "zsh")
    then some hooks.zsh_script
    else if text_eq shell (codes "bash")
    then some hooks.bash_script
    else if text_eq shell (codes "fish")
    then some hooks.fish_script
    else if text_eq shell (codes "nu") || text_eq shell (codes "nushell")
    then some hooks.nushell_script
    else none

abbrev printed_script : Text → Option Text → List Event
printed_script shell none = complain (codes "Unsupported shell: " ++ shell) ∷ exit 1 ∷ []
printed_script shell (some script) = print script ∷ []

-- `run` of hook.rs; `print!` panics where stdout cannot be written, which is left out.
unfoldable pub run_hook : Hooks → Text → List Event
unfolding hook_script
run_hook hooks shell = printed_script shell (hook_script hooks shell)
