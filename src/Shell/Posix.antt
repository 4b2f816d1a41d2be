-- ===== src/Shell/Posix.antt =====
-- How bash and zsh read the statements of src/shell.rs: a reader of one shell word, and the values
-- that it finds.
use direnv_instant.Prelude.{
  ℕ, Text, codes, replace, Option, none, some, [], ◌∷◌, ◌++◌, ◌≡◌, refl, arith, ◌==◌, if◌then◌else◌,
  ◌⊎◌, inl, inr,
}
use direnv_instant.Shell.{Shell, bash, zsh, fish, nushell, escaped, export_var}

abbrev pub push : ℕ → Option Text → Option Text
push c none = none
push c (some s) = some (c ∷ s)

abbrev pub prepend : Text → Option Text → Option Text
prepend [] r = r
prepend (c ∷ s) r = push c (prepend s r)

pub prepend-nil : (s : Text) → prepend s (some []) ≡ some s
prepend-nil [] = refl
prepend-nil (c ∷ s) = rw (prepend-nil s)

pub data Mode : Type 0 where
  plain : Mode
  quoted : Mode
  backslash : Mode

-- The word that a text spells, or `none` where it is no single literal word: a quote that is not
-- closed, or a character outside quotes that no backslash protects.
unfoldable pub read_word : Mode → Text → Option Text
read_word plain [] = some []
read_word plain (c ∷ s) =
    if c == b'\'' then read_word quoted s else if c == b'\\' then read_word backslash s else none
read_word quoted [] = none
read_word quoted (c ∷ s) = if c == b'\'' then read_word plain s else push c (read_word quoted s)
read_word backslash [] = none
read_word backslash (c ∷ s) = if c == b'\n' then read_word plain s else push c (read_word plain s)

pub read_word-escaped :
    (v rest : Text) → read_word quoted (escaped v ++ rest) ≡ prepend v (read_word quoted rest)
unfolding read_word escaped replace
read_word-escaped [] rest = refl
read_word-escaped (c ∷ v) rest = ground (arith, read_word-escaped v rest)

-- A word in the quotes that the program puts round it is read back as it was, whatever it holds.
pub read_word-quoted : (v : Text) → read_word plain (codes "'" ++ (escaped v ++ codes "'")) ≡ some v
unfolding read_word
read_word-quoted v = rw (read_word-escaped v (codes "'"), prepend-nil)

-- bash and zsh read the exported value back: the line is `export`, the name, `=` and one word, and
-- that word spells the value, whatever characters the value holds.
pub export_var-read :
    (shell : Shell) (name value : Text)
    → (shell ≡ bash) ⊎ (shell ≡ zsh)
    → (line word : Text) × (export_var shell name value ≡ some line)
      × (line ≡ codes "export " ++ (name ++ (codes "=" ++ word)))
      × (read_word plain word ≡ some value)
unfolding export_var
export_var-read bash name value h =
    (_, codes "'" ++ (escaped value ++ codes "'"), refl, refl, read_word-quoted value)
export_var-read zsh name value h =
    (_, codes "'" ++ (escaped value ++ codes "'"), refl, refl, read_word-quoted value)
export_var-read fish name value (inl e) = cc
export_var-read fish name value (inr e) = cc
export_var-read nushell name value (inl e) = cc
export_var-read nushell name value (inr e) = cc
