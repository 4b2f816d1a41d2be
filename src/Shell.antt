-- ===== src/Shell.antt =====
-- shell.rs (src/shell.rs): the shells and the statements that are printed for them to evaluate.
pub mod Posix
pub mod Fish
pub mod Words
pub mod Tests
use direnv_instant.Prelude.{
  Text, codes, text_eq, replace, Bool, true, false, ◌||◌, Option, none, some, [], ◌∷◌, ◌++◌,
  if◌then◌else◌,
}
use direnv_instant.Env.{Env, var}

pub data Shell : Type 0 where
  bash : Shell
  zsh : Shell
  fish : Shell
  nushell : Shell

abbrev shell_of : Option Text → Shell
shell_of none = bash
shell_of (some name) =
    if text_eq name (codes "fish")
    then fish
    else if text_eq name (codes "zsh")
    then zsh
    else if text_eq name (codes "nu") || text_eq name (codes "nushell")
    then nushell
    else bash

-- `Shell::from_env`
unfoldable pub from_env : Env → Shell
from_env env = shell_of (var env (codes "DIRENV_INSTANT_SHELL"))

unfoldable pub direnv_export_arg : Shell → Text
direnv_export_arg fish = codes "fish"
direnv_export_arg nushell = codes "json"
direnv_export_arg bash = codes "zsh"
direnv_export_arg zsh = codes "zsh"

-- `value.replace('\'', r"'\''")`
unfoldable pub escaped : Text → Text
unfolding replace
escaped value = replace b'\'' (codes "'\\''") value

-- The line that `export_var` emits; `none` is the panic of `unreachable!`.
unfoldable pub export_var : Shell → Text → Text → Option Text
unfolding escaped
export_var fish name value =
    some (codes "set -gx " ++ (name ++ (codes " '" ++ (escaped value ++ codes "'"))))
export_var bash name value =
    some (codes "export " ++ (name ++ (codes "='" ++ (escaped value ++ codes "'"))))
export_var zsh name value =
    some (codes "export " ++ (name ++ (codes "='" ++ (escaped value ++ codes "'"))))
export_var nushell name value = none

unfoldable pub unset_var : Shell → Text → Option Text
unset_var fish name = some (codes "set -e " ++ name)
unset_var bash name = some (codes "unset " ++ name)
unset_var zsh name = some (codes "unset " ++ name)
unset_var nushell name = none
