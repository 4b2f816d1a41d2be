-- ===== src/Nushell.antt =====
-- `emit_record` and `json_escape` of src/nushell.rs: the JSON record that the hook of Nushell applies.
pub mod Json
pub mod Record
pub mod Tests
use direnv_instant.Prelude.{
  ℕ, suc, Text, codes, Bool, ltb, ◌==◌, ◌/◌, ◌%◌, Option, none, some, List, [], ◌∷◌, ◌++◌,
  if◌then◌else◌,
}
use direnv_instant.Daemon.Files.{hex_digit}

-- `format!("\\u{:04x}", c)`, for a character of at most four hexadecimal digits
unfoldable pub unicode_escape : ℕ → Text
unicode_escape c =
    b'\\'
    ∷ b'u'
    ∷ hex_digit (c / 4096 % 16)
    ∷ hex_digit (c / 256 % 16)
    ∷ hex_digit (c / 16 % 16)
    ∷ hex_digit (c % 16)
    ∷ []

unfoldable pub json_char : ℕ → Text
json_char c =
    if c == b'"'
    then b'\\' ∷ b'"' ∷ []
    else if c == b'\\'
    then b'\\' ∷ b'\\' ∷ []
    else if c == b'\n'
    then b'\\' ∷ b'n' ∷ []
    else if c == b'\r'
    then b'\\' ∷ b'r' ∷ []
    else if c == b'\t'
    then b'\\' ∷ b't' ∷ []
    else if ltb c 0x20
    then unicode_escape c
    else c ∷ []

unfoldable pub json_escape : Text → Text
unfolding json_char
json_escape [] = []
json_escape (c ∷ s) = json_char c ++ json_escape s

abbrev pub Field : Type 0
Field = Text × Option Text

unfoldable pub json_value : Option Text → Text
unfolding json_escape
json_value (some s) = b'"' ∷ (json_escape s ++ codes "\"")
json_value none = codes "null"

unfoldable pub json_field : Field → Text
unfolding json_escape json_value
json_field (k, v) = b'"' ∷ (json_escape k ++ (b'"' ∷ b':' ∷ json_value v))

-- The fields from the `i`th on.
unfoldable pub json_fields : ℕ → List Field → Text
unfolding json_field
json_fields i [] = []
json_fields i (field ∷ state) =
    (if ltb 0 i then codes "," else []) ++ (json_field field ++ json_fields (suc i) state)

-- The line that `emit_record` prints.
unfoldable pub emit_record : List Field → Text
unfolding json_fields
emit_record state = b'{' ∷ (json_fields 0 state ++ codes "}")
