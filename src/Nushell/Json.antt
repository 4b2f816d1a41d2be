-- ===== src/Nushell/Json.antt =====
-- JSON strings and records of strings and nulls, as RFC 8259 describes them, and what they make of the
-- line of src/nushell.rs.
use direnv_instant.Prelude.{
  ℕ, Text, false, ◌||◌, Option, none, some, [], ◌∷◌, ◌++◌, ◌≡◌, refl, ap, arith, if◌then◌else◌, ltb,
  leb, ◌==◌, ◌+◌, ◌-◌, ◌*◌, ◌/◌, ◌%◌, ◌<◌, append_assoc,
}
use direnv_instant.Daemon.Files.{hex_digit}
use direnv_instant.Nushell.{unicode_escape, json_char, json_escape}

abbrev pub push : ℕ → Option (Text × Text) → Option (Text × Text)
push c none = none
push c (some (s, rest)) = some (c ∷ s, rest)

pub data JsonMode : Type 0 where
  normal : JsonMode
  escape : JsonMode
  one_left : ℕ → JsonMode  -- hexadecimal digits that are still to come, and the value so far
  two_left : ℕ → JsonMode
  three_left : ℕ → JsonMode
  four_left : JsonMode

unfoldable pub hex_value : ℕ → Option ℕ
hex_value c =
    if leb b'0' c
    then if leb c b'9'
      then some (c - b'0')
      else if leb b'a' c
      then if leb c b'f' then some (c - 87) else none
      else none
    else none

-- The escapes of one letter; `\b` and `\f` and `\/` are not known to this reader.
abbrev simple_escape : ℕ → Option ℕ
simple_escape c =
    if c == b'n'
    then some b'\n'
    else if c == b'r'
    then some b'\r'
    else if c == b't'
    then some b'\t'
    else if c == b'\\' || c == b'"'
    then some c
    else none

abbrev push? : Option ℕ → Option (Text × Text) → Option (Text × Text)
push? none r = none
push? (some c) r = push c r

-- A string behind its opening quote: its characters, and what follows the closing quote. A control
-- character inside is an error.
unfoldable pub read_json : JsonMode → Text → Option (Text × Text)
read_json normal [] = none
read_json normal (c ∷ s) =
    if c == b'"'
    then some ([], s)
    else if c == b'\\'
    then read_json escape s
    else if ltb c 0x20
    then none
    else push c (read_json normal s)
read_json escape [] = none
read_json escape (c ∷ s) =
    if c == b'u' then read_json four_left s else push? (simple_escape c) (read_json normal s)
read_json four_left [] = none
read_json four_left (c ∷ s) = elim (hex_value c) [
  | none ↦ none
  | some x ↦ read_json (three_left x) s
]
read_json (three_left v) [] = none
read_json (three_left v) (c ∷ s) = elim (hex_value c) [
  | none ↦ none
  | some x ↦ read_json (two_left (v * 16 + x)) s
]
read_json (two_left v) [] = none
read_json (two_left v) (c ∷ s) = elim (hex_value c) [
  | none ↦ none
  | some x ↦ read_json (one_left (v * 16 + x)) s
]
read_json (one_left v) [] = none
read_json (one_left v) (c ∷ s) = elim (hex_value c) [
  | none ↦ none
  | some x ↦ push (v * 16 + x) (read_json normal s)
]

hex_value-hex_digit : (x : ℕ) → x < 16 → hex_value (hex_digit x) ≡ some x
unfolding hex_value
hex_value-hex_digit x h = ground arith

read_json-unicode_escape :
    (c : ℕ) (rest : Text)
    → c < 32
    → read_json normal (unicode_escape c ++ rest) ≡ push c (read_json normal rest)
unfolding read_json unicode_escape
read_json-unicode_escape c rest h =
    rw
      (
        hex_value-hex_digit (c / 4096 % 16) (omega arith),
        hex_value-hex_digit (c / 256 % 16) (omega arith),
        hex_value-hex_digit (c / 16 % 16) (omega arith),
        hex_value-hex_digit (c % 16) (omega arith),
      )
      (ap (λ d. push d (read_json normal rest)) (omega arith))

read_plain :
    (c : ℕ) (rest : Text)
    → c == b'"' ≡ false
    → c == b'\\' ≡ false
    → ltb c 32 ≡ false
    → read_json normal (c ∷ rest) ≡ push c (read_json normal rest)
unfolding read_json
read_plain c rest h1 h2 h3 = ground arith

read_simple_escape :
    (d c : ℕ) (rest : Text)
    → d == b'u' ≡ false
    → simple_escape d ≡ some c
    → read_json normal (b'\\' ∷ d ∷ rest) ≡ push c (read_json normal rest)
unfolding read_json
read_simple_escape d c rest h e = rw (h, e)

read_json-json_char :
    (c : ℕ) (rest : Text) → read_json normal (json_char c ++ rest) ≡ push c (read_json normal rest)
unfolding json_char
read_json-json_char c rest = ground (
  arith,
  read_simple_escape b'\\' b'\\' rest refl refl,
  read_simple_escape b'"' b'"' rest refl refl,
  read_simple_escape b'n' b'\n' rest refl refl,
  read_simple_escape b'r' b'\r' rest refl refl,
  read_simple_escape b't' b'\t' rest refl refl,
  read_json-unicode_escape c rest,
  read_plain c rest,
)

pub read_json-json_escape :
    (s rest : Text) → read_json normal (json_escape s ++ (b'"' ∷ rest)) ≡ some (s, rest)
unfolding json_escape
read_json-json_escape [] rest = unfold read_json in refl
read_json-json_escape (c ∷ s) rest =
    rw (append_assoc, read_json-json_char, read_json-json_escape s rest)
