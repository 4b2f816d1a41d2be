-- ===== src/Shell/Fish.antt =====
-- How fish reads the statements of src/shell.rs. Inside single quotes fish, unlike bash and zsh,
-- takes a backslash before a quote or a backslash for an escape.
use direnv_instant.Prelude.{
  ℕ, is_some, Bool, true, false, ap, ◌∙◌, Text, codes, replace, ◌||◌, Option, none, some, [], ◌∷◌,
  ◌++◌, ◌≡◌, ◌≢◌, refl, arith, ◌==◌, if◌then◌else◌, append_assoc, All,
}
use direnv_instant.Shell.{fish, escaped, export_var}
use direnv_instant.Shell.Posix.{push, prepend, prepend-nil}

pub data FishMode : Type 0 where
  plain : FishMode
  quoted : FishMode
  plain_backslash : FishMode
  quoted_backslash : FishMode

-- The word that a text spells in fish, or `none` where it is no single literal word.
unfoldable pub read_fish : FishMode → Text → Option Text
read_fish plain [] = some []
read_fish plain (c ∷ s) =
    if c == b'\''
    then read_fish quoted s
    else if c == b'\\'
    then read_fish plain_backslash s
    else none
read_fish quoted [] = none
read_fish quoted (c ∷ s) =
    if c == b'\''
    then read_fish plain s
    else if c == b'\\'
    then read_fish quoted_backslash s
    else push c (read_fish quoted s)
read_fish plain_backslash [] = none
read_fish plain_backslash (c ∷ s) =
    if c == b'\'' || c == b'\\' then push c (read_fish plain s) else none
read_fish quoted_backslash [] = none
read_fish quoted_backslash (c ∷ s) =
    if c == b'\'' || c == b'\\'
    then push c (read_fish quoted s)
    else push b'\\' (push c (read_fish quoted s))

-- How the reader stands at the end of a text, or `none` where a character is no part of such a word.
unfoldable pub mode_after : FishMode → Text → Option FishMode
mode_after m [] = some m
mode_after plain (c ∷ s) =
    if c == b'\''
    then mode_after quoted s
    else if c == b'\\'
    then mode_after plain_backslash s
    else none
mode_after quoted (c ∷ s) =
    if c == b'\''
    then mode_after plain s
    else if c == b'\\'
    then mode_after quoted_backslash s
    else mode_after quoted s
mode_after plain_backslash (c ∷ s) = if c == b'\'' || c == b'\\' then mode_after plain s else none
mode_after quoted_backslash (c ∷ s) = mode_after quoted s

abbrev pub LacksBackslash : Text → Type 0
LacksBackslash = All (λ c. c ≢ b'\\')

read_fish-escaped :
    (v rest : Text)
    → LacksBackslash v
    → read_fish quoted (escaped v ++ rest) ≡ prepend v (read_fish quoted rest)
unfolding read_fish escaped replace
read_fish-escaped [] rest h = refl
read_fish-escaped (c ∷ v) rest (h, hs) = ground (arith, read_fish-escaped v rest hs)

escaped-append : (u v : Text) → escaped (u ++ v) ≡ escaped u ++ escaped v
unfolding escaped replace
escaped-append [] v = refl
escaped-append (c ∷ u) v = ground (arith, escaped-append u v)

-- fish reads an exported value back if the value holds no backslash: the line is `set -gx`, the name
-- and one word that spells the value.
pub export_var-read_fish :
    (name value : Text)
    → LacksBackslash value
    → (line word : Text) × (export_var fish name value ≡ some line)
      × (line ≡ codes "set -gx " ++ (name ++ (codes " " ++ word)))
      × (read_fish plain word ≡ some value)
unfolding export_var read_fish
export_var-read_fish name value h = (
  _,
  codes "'" ++ (escaped value ++ codes "'"),
  refl,
  refl,
  rw (read_fish-escaped value (codes "'") h, prepend-nil),
)

is_some-push : (c : ℕ) (r : Option Text) → is_some (push c r) ≡ is_some r
is_some-push c none = refl
is_some-push c (some s) = refl

-- Outside the quotes, and not behind a backslash.
abbrev is_plain : Option FishMode → Bool
is_plain none = false
is_plain (some plain) = true
is_plain (some quoted) = false
is_plain (some plain_backslash) = false
is_plain (some quoted_backslash) = false

-- A text is read as a word exactly when it ends there.
read_fish-mode_after :
    (m : FishMode) (s : Text) → is_some (read_fish m s) ≡ is_plain (mode_after m s)
unfolding read_fish mode_after
read_fish-mode_after plain [] = refl
read_fish-mode_after quoted [] = refl
read_fish-mode_after plain_backslash [] = refl
read_fish-mode_after quoted_backslash [] = refl
read_fish-mode_after plain (c ∷ s) =
    ground (arith, read_fish-mode_after quoted s, read_fish-mode_after plain_backslash s)
read_fish-mode_after quoted (c ∷ s) = ground (
  arith,
  read_fish-mode_after quoted s,
  read_fish-mode_after plain s,
  read_fish-mode_after quoted_backslash s,
  is_some-push c (read_fish quoted s),
)
read_fish-mode_after plain_backslash (c ∷ s) =
    ground (arith, read_fish-mode_after plain s, is_some-push c (read_fish plain s))
read_fish-mode_after quoted_backslash (c ∷ s) = ground (
  arith,
  read_fish-mode_after quoted s,
  is_some-push c (read_fish quoted s),
  is_some-push b'\\' (push c (read_fish quoted s)),
)

none_of_is_some : (r : Option Text) → is_some r ≡ false → r ≡ none
none_of_is_some none h = refl
none_of_is_some (some s) h = absurd (cc)

unfinished : (m : FishMode) (s : Text) → mode_after m s ≡ some quoted → read_fish m s ≡ none
unfinished m s h = none_of_is_some (read_fish m s) (read_fish-mode_after m s ∙ ap is_plain h)

mode_after-escaped :
    (v rest : Text)
    → LacksBackslash v
    → mode_after quoted (escaped v ++ rest) ≡ mode_after quoted rest
unfolding mode_after escaped replace
mode_after-escaped [] rest h = refl
mode_after-escaped (c ∷ v) rest (h, hs) = ground (arith, mode_after-escaped v rest hs)

open_quote :
    (value : Text)
    → LacksBackslash value
    → mode_after plain (codes "'" ++ (escaped (value ++ codes "\\") ++ codes "'")) ≡ some quoted
unfolding mode_after escaped replace
open_quote value h =
    rw
      (
        escaped-append value (codes "\\"),
        append_assoc,
        mode_after-escaped value (escaped (codes "\\") ++ codes "'") h,
      )
      refl

-- For fish an exported value that ends in its only backslash makes a word that never ends: behind
-- the whole word, its closing quote included, fish is still inside the single quotes, so that it
-- reads no word.
pub export_var-read_fish_backslash :
    (name value : Text)
    → LacksBackslash value
    → (line word : Text) × (export_var fish name (value ++ codes "\\") ≡ some line)
      × (line ≡ codes "set -gx " ++ (name ++ (codes " " ++ word)))
      × (mode_after plain word ≡ some quoted)
      × (read_fish plain word ≡ none)
unfolding export_var
export_var-read_fish_backslash name value h = (
  _,
  codes "'" ++ (escaped (value ++ codes "\\") ++ codes "'"),
  refl,
  refl,
  open_quote value h,
  unfinished plain _ (open_quote value h),
)
