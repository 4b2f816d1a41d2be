-- ===== src/Mux/Nvim/Tests.antt =====
-- The requests of src/mux/nvim.rs at concrete inputs, some of them those of its own tests.
use direnv_instant.Prelude.{
  codes, pos, true, false, some, [], ◌∷◌, ◌++◌, ◌≡◌, ◌≢◌, refl, arith, inl, inr,
}
use direnv_instant.Shell.{zsh}
use direnv_instant.Mux.Detect.{nvim}
use direnv_instant.Daemon.Context.{DaemonContext, exited}
use direnv_instant.Mux.Nvim.{watch, finished, escape_lua_string, status_code, expression}
use direnv_instant.Mux.Nvim.Call.{read_expression, call_of, read_expression-expression}
use direnv_instant.Mux.Nvim.Reply
use direnv_instant.Mux.Nvim.Reply.{
  Poll, alive, text, timed_out, refused, waiting, acknowledged, wait_for_reply, ExitsWell,
  wait_for_reply-acknowledged, wait_for_reply-kills, wait_for_reply-ends,
}

escape_all :
    escape_lua_string (codes "\"\\\n\r\t" ++ 1 ∷ codes "1é") ≡ codes "\\\"\\\\\\n\\r\\t\\0011é"
unfolding escape_lua_string
escape_all = refl

status_143 : status_code (exited (pos 143)) ≡ (codes "failed", pos 143)
unfolding status_code
status_143 = refl

abbrev context : DaemonContext
context = record {
  parent_pid = pos 42;
  envrc_dir = codes "/project's root";
  runtime_dir = codes "/runtime";
  socket_path = codes "/runtime/daemon.sock";
  env_file = codes "/runtime/env";
  stderr_file = codes "/runtime/env.stderr";
  temp_file = codes "/runtime/env.123";
  temp_stderr = codes "/runtime/log.123";
  multiplexer = some nvim;
  shell = zsh;
}

expression_success :
    expression context (finished (exited (pos 0)))
    ≡ codes
        "luaeval('require(\"mux.direnv\").finish_watch({log=\"/runtime/log.123\", socket=\"/runtime/daemon.sock\", shell_pid=42, target=\"/project''s root\", status=\"success\", code=0})') ? 1 : 0"
unfolding expression
expression_success = refl

read_expression-expression_example :
    read_expression (expression context (watch (codes "/bin/direnv-instant")))
    ≡ some (call_of context (watch (codes "/bin/direnv-instant")))
read_expression-expression_example =
    read_expression-expression context (watch (codes "/bin/direnv-instant")) (omega arith) tt

abbrev silent : Poll
silent = record { try_wait = alive; past_deadline = false }

abbrev late : Poll
late = record { try_wait = alive; past_deadline = true }

abbrev gone : Poll
gone = record { try_wait = Reply.exited true; past_deadline = false }

timeout_kills : wait_for_reply (text []) (silent ∷ late ∷ gone ∷ []) ≡ (refused timed_out, true)
unfolding wait_for_reply
timeout_kills = refl

wait_for_reply-ends_example : (wait_for_reply (text []) (silent ∷ late ∷ [])).0 ≢ waiting
wait_for_reply-ends_example =
    wait_for_reply-ends (text []) (silent ∷ late ∷ []) (inr (inl (inl refl)))
