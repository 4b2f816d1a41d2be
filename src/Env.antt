-- ===== src/Env.antt =====
-- The process environment, as `std::env` reads it.
use direnv_instant.Prelude.{Text, Bool, true, false, Option, none, some}

-- `env::var` fails on a value that is not Unicode, where `env::var_os` finds one.
pub data EnvVar : Type 0 where
  unset : EnvVar
  not_unicode : EnvVar
  value : Text → EnvVar

abbrev pub Env : Type 0
Env = Text → EnvVar

abbrev to_option : EnvVar → Option Text
to_option unset = none
to_option not_unicode = none
to_option (value v) = some v

-- `env::var(key).ok()`
abbrev pub var : Env → Text → Option Text
var env key = to_option (env key)

abbrev is_set : EnvVar → Bool
is_set unset = false
is_set not_unicode = true
is_set (value v) = true

-- `env::var_os(key).is_some()`
abbrev pub var_os_is_some : Env → Text → Bool
var_os_is_some env key = is_set (env key)
