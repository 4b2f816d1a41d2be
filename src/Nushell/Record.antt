-- ===== src/Nushell/Record.antt =====
-- A reader of JSON records whose values are strings and nulls, and what it makes of the line that
-- src/nushell.rs prints.
use direnv_instant.Prelude.{
  ℕ, zero, suc, Text, codes, text_eq, strip_prefix, Option, none, some, List, [], ◌∷◌, ◌++◌, ◌≡◌,
  refl, ap, ◌∙◌, arith, if◌then◌else◌, ◌≤◌, append_assoc, ◌>>=◌, lt→ltb, length,
}
use direnv_instant.Nushell.{json_escape, Field, json_value, json_field, json_fields, emit_record}
use direnv_instant.Nushell.Json.{normal, read_json, read_json-json_escape}

unfoldable pub read_string : Text → Option (Text × Text)
unfolding read_json
read_string s = strip_prefix (codes "\"") s >>= read_json normal

unfoldable pub read_value : Text → Option (Option Text × Text)
read_value s = elim (strip_prefix (codes "null") s) [
  | some rest ↦ some (none, rest)
  | none ↦ elim (read_string s) [ none ↦ none | some (v, rest) ↦ some (some v, rest) ]
]

abbrev with_key : Text → Option (Option Text × Text) → Option (Field × Text)
with_key k none = none
with_key k (some (v, rest)) = some ((k, v), rest)

abbrev value_of : Option (Text × Text) → Option (Field × Text)
unfolding read_value
value_of none = none
value_of (some (k, s)) = with_key k (strip_prefix (codes ":") s >>= read_value)

unfoldable pub read_field : Text → Option (Field × Text)
unfolding read_string value_of
read_field s = value_of (read_string s)

abbrev cons : Field → Option (List Field) → Option (List Field)
cons kv none = none
cons kv (some fields) = some (kv ∷ fields)

-- At most so many fields, with the brace behind them.
unfoldable pub read_fields : ℕ → Text → Option (List Field)
unfolding read_field
read_fields zero s = none
read_fields (suc n) s = elim (read_field s) [
  | none ↦ none
  | some (kv, rest) ↦
      let more = strip_prefix (codes ",") rest >>= read_fields n in
      if text_eq rest (codes "}") then some (kv ∷ []) else cons kv more
]

unfoldable pub read_record : ℕ → Text → Option (List Field)
unfolding read_fields
read_record n s = strip_prefix (codes "{") s >>= λ rest.
    if text_eq rest (codes "}") then some [] else read_fields n rest

read_string-json_escape :
    (s rest : Text) → read_string (b'"' ∷ (json_escape s ++ (b'"' ∷ rest))) ≡ some (s, rest)
unfolding read_string
read_string-json_escape s rest = read_json-json_escape s rest

read_value_string :
    {rest : Text} (v s : Text)
    → read_string s ≡ some (v, rest)
    → strip_prefix (codes "null") s ≡ none
    → read_value s ≡ some (some v, rest)
unfolding read_value
read_value_string v s h n = rw (n, h) refl

read_value-json_value :
    (v : Option Text) (rest : Text) → read_value (json_value v ++ rest) ≡ some (v, rest)
unfolding read_value json_value
read_value-json_value none rest = refl
read_value-json_value (some s) rest =
    read_value_string s _
      (ap (λ t. read_string (b'"' ∷ t)) (append_assoc (json_escape s) (codes "\"") rest)
        ∙ read_string-json_escape s rest)
      refl

read_field-json_field :
    (kv : Field) (rest : Text) → read_field (json_field kv ++ rest) ≡ some (kv, rest)
unfolding read_field json_field
read_field-json_field (k, v) rest =
    rw
      (
        append_assoc,
        read_string-json_escape k (b':' ∷ (json_value v ++ rest)),
        read_value-json_value v rest,
      )
      refl

read_fields_last :
    (n : ℕ) (kv : Field) (s : Text)
    → read_field s ≡ some (kv, codes "}")
    → read_fields (suc n) s ≡ some (kv ∷ [])
unfolding read_fields
read_fields_last n kv s h = rw (h) refl

read_fields_more :
    (n : ℕ) (kv : Field) (s rest : Text)
    → read_field s ≡ some (kv, b',' ∷ rest)
    → read_fields (suc n) s ≡ cons kv (read_fields n rest)
unfolding read_fields
read_fields_more n kv s rest h = rw (h) refl

json_fields_more :
    (i : ℕ) (kv : Field) (state : List Field) (tail : Text)
    → json_fields (suc i) (kv ∷ state) ++ tail
      ≡ b',' ∷ (json_field kv ++ (json_fields (suc (suc i)) state ++ tail))
unfolding json_fields
json_fields_more i kv state tail =
    rw (lt→ltb 0 (suc i) (omega arith))
      (ap (λ t. b',' ∷ t) (append_assoc (json_field kv) (json_fields (suc (suc i)) state) tail))

json_fields_done : (i : ℕ) (tail : Text) → json_fields i [] ++ tail ≡ tail
unfolding json_fields
json_fields_done i tail = refl

-- Behind its first field, a record goes on with commas.
read_fields-json_fields :
    (n i : ℕ) (kv : Field) (state : List Field)
    → length state ≤ n
    → read_fields (suc n) (json_field kv ++ (json_fields (suc i) state ++ codes "}"))
      ≡ some (kv ∷ state)
read_fields-json_fields n i kv [] h = read_fields_last n kv _ (
    ap (λ t. read_field (json_field kv ++ t)) (json_fields_done (suc i) (codes "}"))
    ∙ read_field-json_field kv (codes "}"))
read_fields-json_fields zero i kv (kv' ∷ state) h = absurd (omega arith)
read_fields-json_fields (suc n) i kv (kv' ∷ state) h =
    read_fields_more (suc n) kv _ _ (
      ap (λ t. read_field (json_field kv ++ t)) (json_fields_more i kv' state (codes "}"))
      ∙ read_field-json_field kv _)
    ∙ ap (cons kv) (read_fields-json_fields n (suc i) kv' state (omega arith))

-- The line that is printed for Nushell reads as a JSON record with the fields of the state, in order,
-- a null for each variable to remove, whatever characters the names and values hold.
pub read_record-emit_record :
    (n : ℕ) (state : List Field) → length state ≤ n → read_record n (emit_record state) ≡ some state
unfolding read_record emit_record json_fields
read_record-emit_record n [] h = refl
read_record-emit_record zero (kv ∷ state) h = absurd (omega arith)
read_record-emit_record (suc n) (kv ∷ state) h =
    ap (read_fields (suc n)) (append_assoc (json_field kv) (json_fields 1 state) (codes "}"))
    ∙ read_fields-json_fields n 0 kv state (omega arith)
