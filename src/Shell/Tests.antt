-- ===== src/Shell/Tests.antt =====
-- The printed statements of src/shell.rs at concrete inputs.
use direnv_instant.Prelude.{Text, codes, none, some, ◌++◌, ◌≡◌, refl, arith, inl}
use direnv_instant.Env.{value}
use direnv_instant.Shell.{bash, zsh, fish, nushell, from_env, export_var, unset_var}
use direnv_instant.Shell.Posix.{read_word, plain, export_var-read}
use direnv_instant.Shell.Fish
use direnv_instant.Shell.Fish.{
  read_fish, mode_after, export_var-read_fish, export_var-read_fish_backslash,
}

from_env_nu : from_env (λ _. value (codes "nu")) ≡ nushell
unfolding from_env
from_env_nu = refl

export_var_zsh :
    export_var zsh (codes "DIR") (codes "/it's") ≡ some (codes "export DIR='/it'\\''s'")
unfolding export_var
export_var_zsh = refl

unset_var_fish : unset_var fish (codes "DIR") ≡ some (codes "set -e DIR")
unfolding unset_var
unset_var_fish = refl

export_var-read_example :
    (line word : Text) × (export_var bash (codes "DIR") (codes "/it's $HOME\\") ≡ some line)
    × (line ≡ codes "export " ++ (codes "DIR" ++ (codes "=" ++ word)))
    × (read_word plain word ≡ some (codes "/it's $HOME\\"))
export_var-read_example = export_var-read bash (codes "DIR") (codes "/it's $HOME\\") (inl refl)

export_var-read_fish_example :
    (line word : Text) × (export_var fish (codes "DIR") (codes "/it's") ≡ some line)
    × (line ≡ codes "set -gx " ++ (codes "DIR" ++ (codes " " ++ word)))
    × (read_fish Fish.plain word ≡ some (codes "/it's"))
export_var-read_fish_example = export_var-read_fish (codes "DIR") (codes "/it's") (omega arith)

export_var-read_fish_backslash_example :
    (line word : Text) × (export_var fish (codes "DIR") (codes "/a" ++ codes "\\") ≡ some line)
    × (line ≡ codes "set -gx " ++ (codes "DIR" ++ (codes " " ++ word)))
    × (mode_after Fish.plain word ≡ some Fish.quoted)
    × (read_fish Fish.plain word ≡ none)
export_var-read_fish_backslash_example =
    export_var-read_fish_backslash (codes "DIR") (codes "/a") (omega arith)
