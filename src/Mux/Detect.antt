-- ===== src/Mux/Detect.antt =====
-- Which multiplexer the shell runs in (src/mux.rs, and `socket` of src/mux/nvim.rs).
use direnv_instant.Prelude.{
  Text, codes, text_eq, Bool, false, Option, none, some, is_some, ◌≡◌, ◌≢◌, ◌↔◌, arith,
  if◌then◌else◌,
}
use direnv_instant.Env.{Env, var}

pub data Multiplexer : Type 0 where
  tmux : Multiplexer
  zellij : Multiplexer
  wezterm : Multiplexer
  kitty : Multiplexer
  herdr : Multiplexer
  nvim : Multiplexer

abbrev pub kitty_var : Text
kitty_var = codes "KITTY_LISTEN_ON"

-- `env::var(key).is_ok_and(|x| x == wanted)`
abbrev pub is_ok_and_eq : Option Text → Text → Bool
is_ok_and_eq none wanted = false
is_ok_and_eq (some x) wanted = text_eq x wanted

-- `nvim::socket`
unfoldable pub socket : Env → Option Text
socket env =
    if is_ok_and_eq (var env (codes "DIRENV_INSTANT_NVIM")) (codes "1")
    then var env (codes "NVIM")
    else none

unfoldable pub detect : Env → Option Multiplexer
unfolding socket
detect env =
    if is_some (socket env)
    then some nvim
    else if is_some (var env (codes "TMUX"))
    then some tmux
    else if is_some (var env (codes "ZELLIJ"))
    then some zellij
    else if is_ok_and_eq (var env (codes "TERM_PROGRAM")) (codes "WezTerm")
    then some wezterm
    else if is_some (var env kitty_var)
    then some kitty
    else if is_ok_and_eq (var env (codes "HERDR_ENV")) (codes "1")
    then some herdr
    else none

-- The session that keeps daemons of different Neovim instances apart.
unfoldable pub session_key : Env → Option Text
unfolding socket
session_key env = socket env

-- The session key exists exactly where the Neovim multiplexer is chosen, so a daemon that reports to
-- a Neovim has a runtime directory of that Neovim's own, and every other daemon shares one.
pub detect-session_key : (env : Env) → (detect env ≡ some nvim) ↔ (session_key env ≢ none)
unfolding detect session_key
detect-session_key env = ground arith

-- No multiplexer is found exactly when none of the six announces itself in the environment.
pub detect-none :
    (env : Env)
    → (detect env ≡ none) ↔ (
        (session_key env ≡ none)
        × (var env (codes "TMUX") ≡ none)
        × (var env (codes "ZELLIJ") ≡ none)
        × (is_ok_and_eq (var env (codes "TERM_PROGRAM")) (codes "WezTerm") ≡ false)
        × (var env kitty_var ≡ none)
        × (is_ok_and_eq (var env (codes "HERDR_ENV")) (codes "1") ≡ false))
unfolding detect session_key
detect-none env = ground arith
