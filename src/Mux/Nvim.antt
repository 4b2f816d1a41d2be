-- ===== src/Mux/Nvim.antt =====
-- The request to a Neovim that src/mux/nvim.rs builds: a Lua call inside a Vim expression.
pub mod Lua
pub mod Vim
pub mod Call
pub mod Reply
pub mod Tests
use direnv_instant.Prelude.{
  ℕ, Text, codes, replace, display, ℤ, pos, int_eq, Bool, true, false, ◌||◌, [], ◌∷◌, ◌++◌,
  if◌then◌else◌, ltb, ◌==◌, ◌+◌, ◌/◌, ◌%◌,
}
use direnv_instant.Daemon.Context.{DaemonContext, LoadOutcome, exited, cancelled}

pub data Event : Type 0 where
  watch : Text → Event
  finished : LoadOutcome → Event

abbrev pub is_ascii_control : ℕ → Bool
is_ascii_control c = ltb c 0x20 || c == 0x7f

-- `format!("\\{:03}", c as u32)`, for a character below 1000
abbrev pub decimal_escape : ℕ → Text
decimal_escape c = b'\\' ∷ (b'0' + c / 100 % 10) ∷ (b'0' + c / 10 % 10) ∷ (b'0' + c % 10) ∷ []

unfoldable pub escape_char : ℕ → Text
escape_char c =
    if c == b'\\'
    then b'\\' ∷ b'\\' ∷ []
    else if c == b'"'
    then b'\\' ∷ b'"' ∷ []
    else if c == b'\n'
    then b'\\' ∷ b'n' ∷ []
    else if c == b'\r'
    then b'\\' ∷ b'r' ∷ []
    else if c == b'\t'
    then b'\\' ∷ b't' ∷ []
    else if is_ascii_control c
    then decimal_escape c
    else c ∷ []

unfoldable pub escape_lua_string : Text → Text
unfolding escape_char
escape_lua_string [] = []
escape_lua_string (c ∷ s) = escape_char c ++ escape_lua_string s

unfoldable pub status_code : LoadOutcome → Text × ℤ
unfolding int_eq
status_code (exited code) =
    if int_eq code (pos 0)
    then (codes "success", pos 0)
    else if int_eq code (pos 130)
    then (codes "cancel", pos 130)
    else (codes "failed", code)
status_code cancelled = (codes "cancel", pos 143)

unfoldable pub method : Event → Text
method (watch bin) = codes "watch"
method (finished outcome) = codes "finish_watch"

-- The text behind the fields that both events share.
unfoldable pub extra : Event → Text
unfolding escape_lua_string status_code display
extra (watch bin) = codes ", bin=\"" ++ (escape_lua_string bin ++ codes "\"")
extra (finished outcome) =
    let (status, code) = status_code outcome in
    codes ", status=\"" ++ (status ++ (codes "\", code=" ++ display code))

unfoldable pub lua_call : DaemonContext → Event → Text
unfolding escape_lua_string method extra display
lua_call ctx event =
    codes "require(\"mux.direnv\")."
    ++ (method event
        ++ (codes "({log=\""
            ++ (escape_lua_string ctx.temp_stderr
                ++ (codes "\", socket=\""
                    ++ (escape_lua_string ctx.socket_path
                        ++ (codes "\", shell_pid="
                            ++ (display ctx.parent_pid
                                ++ (codes ", target=\""
                                    ++ (escape_lua_string ctx.envrc_dir
                                        ++ (codes "\"" ++ (extra event ++ codes "})")))))))))))

unfoldable pub expression : DaemonContext → Event → Text
unfolding lua_call replace
expression ctx event =
    codes "luaeval('" ++ (replace b'\'' (codes "''") (lua_call ctx event) ++ codes "') ? 1 : 0")
