-- ===== src/Shell/Words.antt =====
-- How a POSIX shell splits a command line into words, as far as src/mux.rs writes them, and what it
-- makes of the quotes that `shell_quote` puts.
use direnv_instant.Prelude.{
  ℕ, Text, replace, Bool, ◌&&◌, ◌||◌, Option, none, some, List, [], ◌∷◌, ◌++◌, ◌≡◌, refl, arith,
  ◌==◌, leb, if◌then◌else◌, append-nil,
}
use direnv_instant.Shell.{escaped}

-- A word that begins, and a character in front of the first word.
abbrev pub begin : Text → Option (List Text) → Option (List Text)
begin w none = none
begin w (some ws) = some (w ∷ ws)

abbrev pub push : ℕ → Option (List Text) → Option (List Text)
push c none = none
push c (some []) = none
push c (some (w ∷ ws)) = some ((c ∷ w) ∷ ws)

abbrev pub prepend : Text → Option (List Text) → Option (List Text)
prepend [] r = r
prepend (c ∷ s) r = push c (prepend s r)

pub prepend-begin : (s w : Text) (r : Option (List Text)) → prepend s (begin w r) ≡ begin (s ++ w) r
prepend-begin [] w r = refl
prepend-begin (c ∷ s) w none = rw (prepend-begin s w none)
prepend-begin (c ∷ s) w (some ws) = rw (prepend-begin s w (some ws))

pub data Mode : Type 0 where
  gap : Mode
  plain : Mode
  quoted : Mode
  backslash : Mode

-- The characters that stand for themselves outside quotes here; any other is refused.
abbrev is_literal : ℕ → Bool
is_literal c = (leb b'a' c && leb c b'z') || c == b'-' || c == b'/' || c == b'.'

unfoldable pub read_words : Mode → Text → Option (List Text)
read_words gap [] = some []
read_words gap (c ∷ s) =
    if c == b' '
    then read_words gap s
    else if c == b'\''
    then read_words quoted s
    else if c == b'\\'
    then read_words backslash s
    else if is_literal c
    then push c (read_words plain s)
    else none
read_words plain [] = some ([] ∷ [])
read_words plain (c ∷ s) =
    if c == b' '
    then begin [] (read_words gap s)
    else if c == b'\''
    then read_words quoted s
    else if c == b'\\'
    then read_words backslash s
    else if is_literal c
    then push c (read_words plain s)
    else none
read_words quoted [] = none
read_words quoted (c ∷ s) = if c == b'\'' then read_words plain s else push c (read_words quoted s)
read_words backslash [] = none
read_words backslash (c ∷ s) =
    if c == b'\n' then read_words plain s else push c (read_words plain s)

read_words-escaped :
    (v rest : Text) → read_words quoted (escaped v ++ rest) ≡ prepend v (read_words quoted rest)
unfolding read_words escaped replace
read_words-escaped [] rest = refl
read_words-escaped (c ∷ v) rest = ground (arith, read_words-escaped v rest)

-- A quoted word that something follows, and one at the end.
pub read_words-quoted :
    (v rest : Text)
    → read_words gap (b'\'' ∷ (escaped v ++ (b'\'' ∷ b' ' ∷ rest))) ≡ begin v (read_words gap rest)
unfolding read_words
read_words-quoted v rest = rw (
  read_words-escaped v (b'\'' ∷ b' ' ∷ rest),
  prepend-begin v [] (read_words gap rest),
  append-nil,
)

pub read_words-quoted_last :
    (v : Text) → read_words gap (b'\'' ∷ (escaped v ++ (b'\'' ∷ []))) ≡ some (v ∷ [])
unfolding read_words
read_words-quoted_last v =
    rw (read_words-escaped v (b'\'' ∷ []), prepend-begin v [] (some []), append-nil)
