-- ===== src/Mux/Nvim/Vim.antt =====
-- Vim's literal strings: between single quotes two quotes stand for one, and nothing else is special.
use direnv_instant.Prelude.{
  ℕ, Text, codes, replace, Option, none, some, [], ◌∷◌, ◌++◌, ◌≡◌, ◌≢◌, arith, if◌then◌else◌, ◌==◌,
}
use direnv_instant.Mux.Nvim.Lua.{push}

pub data VimMode : Type 0 where
  inside : VimMode
  quote : VimMode

-- A literal string behind its opening quote, and what follows its closing quote.
unfoldable pub read_vim : VimMode → Text → Option (Text × Text)
read_vim inside [] = none
read_vim inside (c ∷ s) = if c == b'\'' then read_vim quote s else push c (read_vim inside s)
read_vim quote [] = some ([], [])
read_vim quote (c ∷ s) = if c == b'\'' then push c (read_vim inside s) else some ([], c ∷ s)

pub read_vim-replace :
    (s : Text) (c : ℕ) (rest : Text)
    → c ≢ b'\''
    → read_vim inside (replace b'\'' (codes "''") s ++ (b'\'' ∷ c ∷ rest)) ≡ some (s, c ∷ rest)
unfolding read_vim replace
read_vim-replace [] c rest h = ground arith
read_vim-replace (d ∷ s) c rest h = ground (arith, read_vim-replace s c rest h)
