-- ===== src/Nushell/Tests.antt =====
-- The record of src/nushell.rs at a concrete state.
use direnv_instant.Prelude.{codes, none, some, List, [], ◌∷◌, ◌≡◌, refl, arith}
use direnv_instant.Nushell.{Field, unicode_escape, json_escape, emit_record}
use direnv_instant.Nushell.Record.{read_record, read_record-emit_record}

abbrev state : List Field
state =
    (codes "__DIRENV_INSTANT_CURRENT_DIR", none)
    ∷ (codes "__DIRENV_INSTANT_ENV_FILE", some (codes "/tmp/a\"b\\c\t.json"))
    ∷ []

-- A control character is written with four hexadecimal digits.
escape : json_escape (0x1b ∷ []) ≡ codes "\\u001b"
unfolding json_escape unicode_escape
escape = refl

line :
    emit_record ((codes "A", none) ∷ (codes "B", some (codes "x\n")) ∷ [])
    ≡ codes "{\"A\":null,\"B\":\"x\\n\"}"
unfolding emit_record
line = refl

read_record-emit_record_example : read_record 5 (emit_record state) ≡ some state
read_record-emit_record_example = read_record-emit_record 5 state (omega arith)
