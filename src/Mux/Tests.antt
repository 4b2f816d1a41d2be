-- ===== src/Mux/Tests.antt =====
-- The detection and the settings of src/mux.rs at concrete environments.
use direnv_instant.Prelude.{
  ℕ, ◌+◌, ◌≤◌, Text, codes, text_eq, decimal, some, List, [], ◌∷◌, ◌≡◌, refl, arith, if◌then◌else◌,
  ◌*◌, ◌^◌, ◌<◌,
}
use direnv_instant.Env.{Env, unset, value}
use direnv_instant.Mux.Detect.{nvim, detect}
use direnv_instant.Mux.Settings.{
  mux_delay_ms, lines, kitty_launch_args, kitty_launch_args-join_lines, join_lines,
  mux_delay_ms-overflow,
}

-- An environment with one variable, and one with another before it.
abbrev with : Text → Text → Env → Env
with key v env k = if text_eq k key then value v else env k

abbrev empty : Env
empty k = unset

abbrev pub in_nvim : Env
in_nvim =
    with (codes "DIRENV_INSTANT_NVIM") (codes "1")
      (with (codes "NVIM") (codes "/run/nvim.sock") (with (codes "TMUX") (codes "x") empty))

nvim_before_tmux : detect in_nvim ≡ some nvim
unfolding detect
nvim_before_tmux = refl

abbrev delayed : Text → Env
delayed v = with (codes "DIRENV_INSTANT_MUX_DELAY") v empty

-- 2^61 seconds are no milliseconds: the product is a multiple of 2^64.
delay_wraps : mux_delay_ms (delayed (codes "2305843009213693952")) ≡ 0
unfolding mux_delay_ms
delay_wraps = refl

mux_delay_ms-overflow_example :
    (k : ℕ) × (1 ≤ k)
    × (mux_delay_ms (delayed (decimal (2 ^ 61))) + k * 2 ^ 64 ≡ 2 ^ 61 * 1000)
    × (mux_delay_ms (delayed (decimal (2 ^ 61))) < 2 ^ 64)
mux_delay_ms-overflow_example =
    mux_delay_ms-overflow (delayed (decimal (2 ^ 61))) (2 ^ 61) refl (omega arith) (omega arith)

lines_crlf : lines (codes "a\r\n\nb\r") ≡ codes "a" ∷ [] ∷ codes "b\r" ∷ []
unfolding lines
lines_crlf = refl

abbrev kitty_args : List Text
kitty_args = codes "--type" ∷ codes "tab" ∷ []

kitty_launch_args-join_lines_example :
    kitty_launch_args
      (with (codes "DIRENV_INSTANT_KITTY_LAUNCH_ARGS") (join_lines kitty_args) empty)
    ≡ kitty_args
kitty_launch_args-join_lines_example =
    kitty_launch_args-join_lines
      (with (codes "DIRENV_INSTANT_KITTY_LAUNCH_ARGS") (join_lines kitty_args) empty) kitty_args
      (((λ e. cc), omega arith), (((λ e. cc), omega arith), tt)) refl
