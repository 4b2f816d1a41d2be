-- ===== src/Mux/Nvim/Call.antt =====
-- What the Neovim reads out of the expression that src/mux/nvim.rs sends: the Lua function that is
-- called and the fields of its argument.
use direnv_instant.Prelude.{
  ℕ, ◌<◌, Text, codes, strip_prefix, text_eq, display, display-IsNumeral, IsNumeral, parse_i32,
  parse_i32-display, ℤ, pos, int_eq, IsI32, Option, none, some, [], ◌∷◌, ◌++◌, ◌≡◌, ◌≢◌, refl,
  arith, if◌then◌else◌, ◌==◌, ◌>>=◌, append_assoc, All, Bool-cases, inl, inr,
}
use direnv_instant.Daemon.Context.{DaemonContext, LoadOutcome, exited, cancelled}
use direnv_instant.Mux.Nvim.{
  Event, watch, finished, escape_lua_string, status_code, method, extra, lua_call, expression,
}
use direnv_instant.Mux.Nvim.Lua.{read_lua, normal, read_lua-escape_lua_string}
use direnv_instant.Mux.Nvim.Vim.{read_vim, inside, read_vim-replace}

pub data Detail : Type 0 where
  bin : Text → Detail
  status : Text → ℤ → Detail

pub record Call : Type 0 where
  pub function : Text
  pub log : Text
  pub socket : Text
  pub shell_pid : ℤ
  pub target : Text
  pub detail : Detail

-- The text up to a delimiter, and what follows the delimiter.
unfoldable pub read_until : ℕ → Text → Option (Text × Text)
read_until d [] = none
read_until d (c ∷ s) =
    if c == d then some ([], s) else do (t, rest) ← read_until d s; some (c ∷ t, rest)

read_until-display :
    (d : ℕ) (s rest : Text) → All (λ c. c ≢ d) s → read_until d (s ++ d ∷ rest) ≡ some (s, rest)
unfolding read_until
read_until-display d [] rest h = ground arith
read_until-display d (c ∷ s) rest (h, hs) = ground (arith, read_until-display d s rest hs)

expect : Text → Text → Option (Unit {0})
expect wanted s = if text_eq wanted s then some tt else none

read_bin : Text → Option Detail
read_bin r = do (b, rest) ← read_lua normal r; done ← expect (codes "})") rest; some (bin b)

read_status : Text → Option Detail
read_status r = do
  (s, r1) ← read_lua normal r
  r2 ← strip_prefix (codes ", code=") r1
  (digits, rest) ← read_until b'}' r2
  code ← parse_i32 digits
  done ← expect (codes ")") rest
  some (status s code)

read_detail : Text → Option Detail
read_detail s = elim (strip_prefix (codes ", bin=\"") s) [
  | some r ↦ read_bin r
  | none ↦ strip_prefix (codes ", status=\"") s >>= read_status
]

-- The argument of the call, behind `({log="`.
read_fields : Text → Text → Option Call
read_fields function s = do
  (log, r1) ← read_lua normal s
  r2 ← strip_prefix (codes ", socket=\"") r1
  (socket, r3) ← read_lua normal r2
  r4 ← strip_prefix (codes ", shell_pid=") r3
  (digits, r5) ← read_until b',' r4
  shell_pid ← parse_i32 digits
  r6 ← strip_prefix (codes " target=\"") r5
  (target, r7) ← read_lua normal r6
  detail ← read_detail r7
  some (record {
    function = function;
    log = log;
    socket = socket;
    shell_pid = shell_pid;
    target = target;
    detail = detail;
  })

read_lua_call : Text → Option Call
read_lua_call s = do
  r ← strip_prefix (codes "require(\"mux.direnv\").") s
  (function, r1) ← read_until b'(' r
  r2 ← strip_prefix (codes "{log=\"") r1
  read_fields function r2

unfoldable pub read_expression : Text → Option Call
unfolding read_lua_call read_fields read_detail read_bin read_status expect
read_expression s = do
  r ← strip_prefix (codes "luaeval('") s
  (lua, rest) ← read_vim inside r
  done ← expect (codes ") ? 1 : 0") rest
  read_lua_call lua

-- What the event stands for.
abbrev pub detail_of : Event → Detail
detail_of (watch b) = bin b
detail_of (finished outcome) = status (status_code outcome).0 (status_code outcome).1

abbrev pub call_of : DaemonContext → Event → Call
call_of ctx event = record {
  function = method event;
  log = ctx.temp_stderr;
  socket = ctx.socket_path;
  shell_pid = ctx.parent_pid;
  target = ctx.envrc_dir;
  detail = detail_of event;
}

abbrev pub HasI32 : Event → Type 0
HasI32 (watch b) = Unit
HasI32 (finished (exited code)) = IsI32 code
HasI32 (finished cancelled) = Unit

lacks_delimiter : (d : ℕ) (s : Text) → b'9' < d → All IsNumeral s → All (λ c. c ≢ d) s
lacks_delimiter d [] h hs = tt
lacks_delimiter d (c ∷ s) h (k, hs) = (omega arith, lacks_delimiter d s h hs)

lacks_comma : (s : Text) → All IsNumeral s → All (λ c. c ≢ b',') s
lacks_comma [] hs = tt
lacks_comma (c ∷ s) (k, hs) = (omega arith, lacks_comma s hs)

read_bin_lem : (b : Text) → read_bin (escape_lua_string b ++ codes "\"})") ≡ some (bin b)
unfolding read_bin expect
read_bin_lem b = rw (read_lua-escape_lua_string b (codes "})"))

read_lua-status :
    (outcome : LoadOutcome) (rest : Text)
    → read_lua normal ((status_code outcome).0 ++ b'"' ∷ rest)
      ≡ some ((status_code outcome).0, rest)
unfolding read_lua status_code
read_lua-status (exited code) rest = elim (Bool-cases (int_eq code (pos 0))) [
  | inl e ↦ rw e
  | inr e ↦ elim (Bool-cases (int_eq code (pos 130))) [ inl k ↦ rw (e, k) | inr k ↦ rw (e, k) ]
]
read_lua-status cancelled rest = refl

status_code-IsI32 :
    (outcome : LoadOutcome) → HasI32 (finished outcome) → IsI32 (status_code outcome).1
unfolding status_code
status_code-IsI32 (exited code) h = elim (Bool-cases (int_eq code (pos 0))) [
  | inl e ↦ rw e (omega arith)
  | inr e ↦ elim (Bool-cases (int_eq code (pos 130))) [
    | inl k ↦ rw (e, k) (omega arith)
    | inr k ↦ rw (e, k) h
  ]
]
status_code-IsI32 cancelled h = omega arith

read_status_lem :
    (outcome : LoadOutcome)
    → HasI32 (finished outcome)
    → read_status (
        (status_code outcome).0
        ++ (b'"' ∷ (codes ", code=" ++ (display (status_code outcome).1 ++ codes "})"))))
      ≡ some (detail_of (finished outcome))
unfolding read_status expect
read_status_lem outcome h = rw (
  read_lua-status outcome (codes ", code=" ++ (display (status_code outcome).1 ++ codes "})")),
  read_until-display b'}' (display (status_code outcome).1) (codes ")")
      (lacks_delimiter b'}' _ (omega arith) (display-IsNumeral (status_code outcome).1)),
  parse_i32-display (status_code outcome).1 (status_code-IsI32 outcome h),
)

read_detail-extra :
    (event : Event)
    → HasI32 event
    → read_detail (extra event ++ codes "})") ≡ some (detail_of event)
unfolding read_detail extra
read_detail-extra (watch b) h = rw append_assoc (read_bin_lem b)
read_detail-extra (finished outcome) h = rw append_assoc (read_status_lem outcome h)

read_until-method :
    (event : Event) (rest : Text)
    → read_until b'(' (method event ++ b'(' ∷ rest) ≡ some (method event, rest)
unfolding read_until method
read_until-method (watch b) rest = refl
read_until-method (finished outcome) rest = refl

read_fields_lem :
    (function : Text) (ctx : DaemonContext) (event : Event)
    → IsI32 ctx.parent_pid
    → HasI32 event
    → read_fields function (
        escape_lua_string ctx.temp_stderr
        ++ (codes "\", socket=\""
            ++ (escape_lua_string ctx.socket_path
                ++ (codes "\", shell_pid="
                    ++ (display ctx.parent_pid
                        ++ (codes ", target=\""
                            ++ (escape_lua_string ctx.envrc_dir
                                ++ (codes "\"" ++ (extra event ++ codes "})")))))))))
      ≡ some (record (call_of ctx event) { function = function })
unfolding read_fields
read_fields_lem function ctx event pid h = rw (
  read_lua-escape_lua_string ctx.temp_stderr _,
  read_lua-escape_lua_string ctx.socket_path _,
  read_until-display b',' (display ctx.parent_pid) _
      (lacks_comma _ (display-IsNumeral ctx.parent_pid)),
  parse_i32-display ctx.parent_pid pid,
  read_lua-escape_lua_string ctx.envrc_dir _,
  read_detail-extra event h,
)

read_lua_call_lem :
    (ctx : DaemonContext) (event : Event)
    → IsI32 ctx.parent_pid
    → HasI32 event
    → read_lua_call (lua_call ctx event) ≡ some (call_of ctx event)
unfolding read_lua_call lua_call
read_lua_call_lem ctx event pid h =
    rw (read_until-method event _) (read_fields_lem (method event) ctx event pid h)

-- The Neovim gets what was sent. Read as a Vim expression with a literal string in it, and that string
-- as a Lua call with quoted strings in it, the text of a request is a call of the event's function
-- with the daemon's log, socket, shell and directory and the event's own fields, whatever characters
-- the paths hold.
pub read_expression-expression :
    (ctx : DaemonContext) (event : Event)
    → IsI32 ctx.parent_pid
    → HasI32 event
    → read_expression (expression ctx event) ≡ some (call_of ctx event)
unfolding read_expression expression expect
read_expression-expression ctx event pid h =
    rw (read_vim-replace (lua_call ctx event) b')' (codes " ? 1 : 0") (omega arith))
      (read_lua_call_lem ctx event pid h)
