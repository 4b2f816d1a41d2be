-- ===== src/Mux/Nvim/Lua.antt =====
-- Lua's short string literals, as the Lua manual describes them, and what they make of the strings
-- that src/mux/nvim.rs escapes.
use direnv_instant.Prelude.{
  ℕ, Text, Bool, true, false, ◌&&◌, ◌||◌, Option, none, some, [], ◌∷◌, ◌++◌, ◌≡◌, refl, arith,
  if◌then◌else◌, ltb, leb, ◌==◌, ◌+◌, ◌-◌, ◌*◌, ◌/◌, ◌%◌, ◌<◌, not, ap, lt→ltb, append_assoc,
}
use direnv_instant.Mux.Nvim.{escape_char, escape_lua_string, decimal_escape, is_ascii_control}

-- The characters of a literal, and what follows its closing quote.
abbrev pub push : ℕ → Option (Text × Text) → Option (Text × Text)
push c none = none
push c (some (s, rest)) = some (c ∷ s, rest)

abbrev pub prepend : Text → Option (Text × Text) → Option (Text × Text)
prepend [] r = r
prepend (c ∷ s) r = push c (prepend s r)

pub prepend-nil : (s rest : Text) → prepend s (some ([], rest)) ≡ some (s, rest)
prepend-nil [] rest = refl
prepend-nil (c ∷ s) rest = rw (prepend-nil s rest)

pub data LuaMode : Type 0 where
  normal : LuaMode
  escape : LuaMode
  one_digit : ℕ → LuaMode
  two_digits : ℕ → LuaMode

unfoldable pub is_digit : ℕ → Bool
is_digit c = leb b'0' c && leb c b'9'

-- The single-letter escapes that the reader knows; any other letter is refused.
abbrev simple_escape : ℕ → Option ℕ
simple_escape c =
    if c == b'n'
    then some b'\n'
    else if c == b'r'
    then some b'\r'
    else if c == b't'
    then some b'\t'
    else if c == b'\\' || c == b'"' || c == b'\''
    then some c
    else none

abbrev push? : Option ℕ → Option (Text × Text) → Option (Text × Text)
push? none r = none
push? (some c) r = push c r

-- A literal between double quotes, behind its opening quote. A decimal escape takes up to three
-- digits and stands for a byte; a line break inside is an error.
unfoldable pub read_lua : LuaMode → Text → Option (Text × Text)
read_lua normal [] = none
read_lua normal (c ∷ s) =
    if c == b'"'
    then some ([], s)
    else if c == b'\\'
    then read_lua escape s
    else if c == b'\n' || c == b'\r'
    then none
    else push c (read_lua normal s)
read_lua escape [] = none
read_lua escape (c ∷ s) =
    if is_digit c
    then read_lua (one_digit (c - b'0')) s
    else push? (simple_escape c) (read_lua normal s)
read_lua (one_digit v) [] = none
read_lua (one_digit v) (c ∷ s) =
    if is_digit c
    then read_lua (two_digits (v * 10 + (c - b'0'))) s
    else if c == b'"'
    then some (v ∷ [], s)
    else if c == b'\\'
    then push v (read_lua escape s)
    else if c == b'\n' || c == b'\r'
    then none
    else push v (push c (read_lua normal s))
read_lua (two_digits v) [] = none
read_lua (two_digits v) (c ∷ s) =
    if is_digit c
    then if ltb (v * 10 + (c - b'0')) 256
      then push (v * 10 + (c - b'0')) (read_lua normal s)
      else none
    else if c == b'"'
    then some (v ∷ [], s)
    else if c == b'\\'
    then push v (read_lua escape s)
    else if c == b'\n' || c == b'\r'
    then none
    else push v (push c (read_lua normal s))

is_digit-add : (x : ℕ) → x < 10 → is_digit (b'0' + x) ≡ true
unfolding is_digit
is_digit-add x h = ground arith

digit_value : (x : ℕ) → (b'0' + x) - b'0' ≡ x
digit_value x = omega arith

module _ (x : ℕ) (s : Text) (h : x < 10) where
  read_first_digit : read_lua escape ((b'0' + x) ∷ s) ≡ read_lua (one_digit x) s
  unfolding read_lua
  read_first_digit = rw (is_digit-add x h, digit_value x)

  read_second_digit :
      (v : ℕ) → read_lua (one_digit v) ((b'0' + x) ∷ s) ≡ read_lua (two_digits (v * 10 + x)) s
  unfolding read_lua
  read_second_digit v = rw (is_digit-add x h, digit_value x)

  read_third_digit :
      (v : ℕ)
      → v * 10 + x < 256
      → read_lua (two_digits v) ((b'0' + x) ∷ s) ≡ push (v * 10 + x) (read_lua normal s)
  unfolding read_lua
  read_third_digit v fits = rw (is_digit-add x h, digit_value x, lt→ltb _ _ fits)

read_backslash : (s : Text) → read_lua normal (b'\\' ∷ s) ≡ read_lua escape s
unfolding read_lua
read_backslash s = refl

read_lua-decimal_escape :
    (c : ℕ) (rest : Text)
    → c < 128
    → read_lua normal (decimal_escape c ++ rest) ≡ push c (read_lua normal rest)
read_lua-decimal_escape c rest h =
    rw
      (
        read_backslash,
        read_first_digit (c / 100 % 10) _ (omega arith),
        read_second_digit (c / 10 % 10) _ (omega arith),
        read_third_digit (c % 10) rest (omega arith) (c / 100 % 10 * 10 + c / 10 % 10)
            (omega arith),
      )
      (ap (λ d. push d (read_lua normal rest)) (omega arith))

-- A character that is written as it stands.
abbrev is_plain : ℕ → Bool
is_plain c =
    not (c == b'\\' || c == b'"' || c == b'\n' || c == b'\r' || c == b'\t' || is_ascii_control c)

read_plain :
    (c : ℕ) (rest : Text)
    → is_plain c ≡ true
    → read_lua normal (c ∷ rest) ≡ push c (read_lua normal rest)
unfolding read_lua
read_plain c rest h = ground arith

read_simple_escape :
    (d c : ℕ) (rest : Text)
    → is_digit d ≡ false
    → simple_escape d ≡ some c
    → read_lua normal (b'\\' ∷ d ∷ rest) ≡ push c (read_lua normal rest)
unfolding read_lua
read_simple_escape d c rest h e = rw (h, e)

read_lua-escape_char :
    (c : ℕ) (rest : Text) → read_lua normal (escape_char c ++ rest) ≡ push c (read_lua normal rest)
unfolding escape_char is_digit
read_lua-escape_char c rest = ground (
  arith,
  read_simple_escape b'\\' b'\\' rest refl refl,
  read_simple_escape b'"' b'"' rest refl refl,
  read_simple_escape b'n' b'\n' rest refl refl,
  read_simple_escape b'r' b'\r' rest refl refl,
  read_simple_escape b't' b'\t' rest refl refl,
  read_lua-decimal_escape c rest,
  read_plain c rest,
)

pub read_lua-escape_lua_string :
    (s rest : Text) → read_lua normal (escape_lua_string s ++ (b'"' ∷ rest)) ≡ some (s, rest)
unfolding escape_lua_string
read_lua-escape_lua_string [] rest = unfold read_lua in refl
read_lua-escape_lua_string (c ∷ s) rest =
    rw (append_assoc, read_lua-escape_char, read_lua-escape_lua_string s rest)
