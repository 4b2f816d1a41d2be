-- ===== src/Mux/Settings.antt =====
-- The settings that src/mux.rs reads from the environment: the delay before a pane is opened, and the
-- arguments of `kitty launch`.
use direnv_instant.Prelude.{
  ℕ, Text, codes, parse_u64, parse_u64-decimal, ap, ◌∙◌, sym, decimal, Bool, true, false, Option,
  none, some, List, [], ◌∷◌, ◌++◌, ◌≡◌, ◌≢◌, refl, arith, if◌then◌else◌, ◌==◌, ◌*◌, ◌+◌, ◌/◌, ◌%◌,
  ◌^◌, ◌<◌, ◌≤◌, All, append-nil, append_assoc,
}
use direnv_instant.Env.{Env, var}

abbrev delay_of : Option ℕ → ℕ
delay_of none = 4000
delay_of (some s) = (s * 1000) % 2 ^ 64

abbrev parse_delay : Option Text → Option ℕ
parse_delay none = none
parse_delay (some s) = parse_u64 s

-- `s * 1000` wraps in a release build.
unfoldable pub mux_delay_ms : Env → ℕ
unfolding parse_u64
mux_delay_ms env = delay_of (parse_delay (var env (codes "DIRENV_INSTANT_MUX_DELAY")))

-- `str::lines`: a line ends at a line feed, and a carriage return before that is dropped.
abbrev strip_return : Text → Text
strip_return [] = []
strip_return (c ∷ s) =
    let rest = strip_return s in
    elim s [ [] ↦ if c == b'\r' then [] else c ∷ [] | d ∷ r ↦ c ∷ rest ]

-- A last line that is empty is none.
abbrev last_line : Text → List Text
last_line [] = []
last_line (c ∷ s) = (c ∷ s) ∷ []

lines_from : Text → Text → List Text
lines_from cur [] = last_line cur
lines_from cur (c ∷ s) = elim (c == b'\n') [
  | true ↦ strip_return cur ∷ lines_from [] s
  | false ↦ lines_from (cur ++ c ∷ []) s
]

unfoldable pub lines : Text → List Text
unfolding lines_from
lines s = lines_from [] s

abbrev is_nonempty : Text → Bool
is_nonempty [] = false
is_nonempty (c ∷ s) = true

unfoldable pub filter_nonempty : List Text → List Text
filter_nonempty [] = []
filter_nonempty (l ∷ ls) = if is_nonempty l then l ∷ filter_nonempty ls else filter_nonempty ls

abbrev pub default_kitty_launch_args : List Text
default_kitty_launch_args =
    codes "--location" ∷ codes "vsplit" ∷ codes "--keep-focus" ∷ codes "--self" ∷ []

abbrev launch_args_of : Option Text → List Text
unfolding lines filter_nonempty
launch_args_of none = default_kitty_launch_args
launch_args_of (some args) = filter_nonempty (lines args)

unfoldable pub kitty_launch_args : Env → List Text
unfolding launch_args_of
kitty_launch_args env = launch_args_of (var env (codes "DIRENV_INSTANT_KITTY_LAUNCH_ARGS"))

-- A delay in whole seconds is that many thousand milliseconds, up to the largest that a `u64` holds.
pub mux_delay_ms-seconds :
    (env : Env) (n : ℕ)
    → var env (codes "DIRENV_INSTANT_MUX_DELAY") ≡ some (decimal n)
    → n * 1000 < 2 ^ 64
    → mux_delay_ms env ≡ n * 1000
unfolding mux_delay_ms
mux_delay_ms-seconds env n set small = rw (set, parse_u64-decimal n (omega arith)) (omega arith)

-- In a release build a delay of n seconds whose milliseconds do not fit a u64 wraps: what comes out
-- is a u64 that falls short of them by a positive multiple of 2^64.
pub mux_delay_ms-overflow :
    (env : Env) (n : ℕ)
    → var env (codes "DIRENV_INSTANT_MUX_DELAY") ≡ some (decimal n)
    → n < 2 ^ 64
    → 2 ^ 64 ≤ n * 1000
    → (k : ℕ) × (1 ≤ k) × (mux_delay_ms env + k * 2 ^ 64 ≡ n * 1000) × (mux_delay_ms env < 2 ^ 64)
unfolding mux_delay_ms
mux_delay_ms-overflow env n set small large =
    rw (set, parse_u64-decimal n small) (n * 1000 / 2 ^ 64, omega arith, omega arith, omega arith)

-- An argument that a line can hold.
abbrev pub IsArgument : Text → Type 0
IsArgument a = (a ≢ []) × All (λ c. (c ≢ b'\n') × (c ≢ b'\r')) a

-- The arguments one to a line, as the modules of the repository write them.
abbrev pub join_lines : List Text → Text
join_lines [] = []
join_lines (a ∷ []) = a
join_lines (a ∷ b ∷ args) = a ++ b'\n' ∷ join_lines (b ∷ args)

strip_return_same : (a : Text) → All (λ c. (c ≢ b'\n') × (c ≢ b'\r')) a → strip_return a ≡ a
strip_return_same [] h = refl
strip_return_same (c ∷ []) ((n, r), h) = ground arith
strip_return_same (c ∷ d ∷ s) (_, h) = ap (λ rest. c ∷ rest) (strip_return_same (d ∷ s) h)

lines_from-append :
    (cur a rest : Text)
    → All (λ c. (c ≢ b'\n') × (c ≢ b'\r')) a
    → lines_from cur (a ++ rest) ≡ lines_from (cur ++ a) rest
unfolding lines_from
lines_from-append cur [] rest h = rw append-nil
lines_from-append cur (c ∷ a) rest ((n, r), h) =
    ground (arith, lines_from-append (cur ++ c ∷ []) a rest h, append_assoc cur (c ∷ []) a)

lines_from-line :
    (a rest : Text)
    → All (λ c. (c ≢ b'\n') × (c ≢ b'\r')) a
    → lines_from [] (a ++ b'\n' ∷ rest) ≡ a ∷ lines_from [] rest
lines_from-line a rest h =
    rw (lines_from-append [] a (b'\n' ∷ rest) h) (newline ∙ rw (strip_return_same a h))
  where
    newline : lines_from a (b'\n' ∷ rest) ≡ strip_return a ∷ lines_from [] rest
    newline = unfold lines_from in refl

lines_from_last : (a : Text) → IsArgument a → lines_from [] a ≡ a ∷ []
lines_from_last [] (n, h) = absurd (n refl)
lines_from_last (c ∷ a) (n, h) =
    ap (lines_from []) (sym (append-nil (c ∷ a))) ∙ lines_from-append [] (c ∷ a) [] h ∙ last
  where
    last : lines_from (c ∷ a) [] ≡ (c ∷ a) ∷ []
    last = unfold lines_from in refl

lines-join_lines : (args : List Text) → All IsArgument args → lines (join_lines args) ≡ args
unfolding lines lines_from
lines-join_lines [] h = refl
lines-join_lines (a ∷ []) (h, _) = lines_from_last a h
lines-join_lines (a ∷ b ∷ args) (h, hs) =
    lines_from-line a (join_lines (b ∷ args)) h.1
    ∙ ap (λ rest. a ∷ rest) (lines-join_lines (b ∷ args) hs)

filter_nonempty_same : (args : List Text) → All IsArgument args → filter_nonempty args ≡ args
unfolding filter_nonempty
filter_nonempty_same [] h = refl
filter_nonempty_same ([] ∷ args) ((n, _), hs) = absurd (n refl)
filter_nonempty_same ((c ∷ a) ∷ args) (h, hs) = rw (filter_nonempty_same args hs)

-- The launch arguments survive the environment: a list of arguments with no line break inside, none of
-- them empty, that is written one to a line is the list that kitty is started with.
pub kitty_launch_args-join_lines :
    (env : Env) (args : List Text)
    → All IsArgument args
    → var env (codes "DIRENV_INSTANT_KITTY_LAUNCH_ARGS") ≡ some (join_lines args)
    → kitty_launch_args env ≡ args
unfolding kitty_launch_args
kitty_launch_args-join_lines env args h set =
    rw (set, lines-join_lines args h) (filter_nonempty_same args h)
