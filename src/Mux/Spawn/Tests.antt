-- ===== src/Mux/Spawn/Tests.antt =====
-- The panes of src/mux.rs at concrete answers.
use direnv_instant.Prelude.{
  arith, false, ℕ, Text, codes, text_eq, true, Option, none, some, [], ◌∷◌, ◌≡◌, ◌↔◌, ◌-◌, pos,
  refl, if◌then◌else◌, ltb,
}
use direnv_instant.Shell.{zsh}
use direnv_instant.Env.{Env, unset}
use direnv_instant.Mux.Detect.{herdr}
use direnv_instant.Mux.Json.{Tinyjson, Float, json_get}
use direnv_instant.Mux.Spawn.{Output, Answers, bin_of, spawn_herdr, spawn_pane}
use direnv_instant.Mux.Spawn.Panes.{Watches, spawn_pane-Watches}
use direnv_instant.Mux.Spawn.Herdr.{Splits, spawn_herdr-ok}
use direnv_instant.Daemon.Context.{DaemonContext, cancelled}
use direnv_instant.Mux.Detect.{socket}
use direnv_instant.Mux.Nvim.{finished}
use direnv_instant.Mux.Nvim.Reply
use direnv_instant.Mux.Nvim.Reply.{Poll, acknowledged, text}
use direnv_instant.Mux.Spawn.{sent, finish_nvim}
use direnv_instant.Mux.Spawn.Neovim.{Told, Accepts, finish_nvim-acknowledged}
use direnv_instant.Mux.Tests.{in_nvim}

-- JSON values with at most one field, and one text that parses.
data Json : Type 0 where
  string_of : Text → Json
  field_of : Text → Json → Json

abbrev reply : Text
reply = codes "{\"result\":{\"pane\":{\"pane_id\":\"w1:p2\"}}}"

abbrev value_of_reply : Json
value_of_reply =
    field_of (codes "result")
      (field_of (codes "pane") (field_of (codes "pane_id") (string_of (codes "w1:p2"))))

abbrev fields_of : Json → Option (Text → Option Json)
fields_of (string_of s) = none
fields_of (field_of name v) = some (λ key. if text_eq key name then some v else none)

abbrev string_in : Json → Option Text
string_in (string_of s) = some s
string_in (field_of name v) = none

abbrev json : Tinyjson ℕ
json = record {
  Value = Json;
  parse = λ t. if text_eq t reply then some value_of_reply else none;
  object = fields_of;
  array = λ v. none;
  string = string_in;
  number = λ v. none;
}

-- Numbers that are whole, of which the model prints one.
abbrev float : Float
float = record {
  Number = ℕ;
  literal = λ t. 0;
  minus = λ a b. a - b;
  over = λ a b. a;
  greater = λ a b. ltb b a;
  clamp = λ x a b. x;
  three_digits = λ x. codes "0.750";
}

abbrev no_vars : Env
no_vars = λ name. unset

abbrev ctx : DaemonContext
ctx = record {
  parent_pid = pos 42;
  envrc_dir = codes "/p";
  runtime_dir = codes "/r";
  socket_path = codes "/r/daemon.sock";
  env_file = codes "/r/env";
  stderr_file = codes "/r/env.stderr";
  temp_file = codes "/r/env.a";
  temp_stderr = codes "/r/it's.b";
  multiplexer = some herdr;
  shell = zsh;
}

abbrev answers : Answers
answers = record {
  current_exe = some (codes "/bin/direnv-instant");
  layout = none;
  split = some (record { success = true; stdout = reply });
  spawned = true;
}

-- herdr reports a pane, in which a path with an apostrophe is passed on as it is.
herdr_ok : (spawn_pane float json herdr no_vars answers ctx).1 ≡ none
unfolding spawn_pane
herdr_ok = refl

spawn_pane-Watches_example :
    Watches herdr (bin_of answers) ctx (spawn_pane float json herdr no_vars answers ctx).0
spawn_pane-Watches_example =
    spawn_pane-Watches float json no_vars answers ctx herdr (omega arith) herdr_ok

spawn_herdr-ok_example :
    ((spawn_herdr float json no_vars answers ctx).1 ≡ none)
    ↔ ((out : Output) × (id : Text) × Splits float json no_vars answers ctx out id)
spawn_herdr-ok_example = spawn_herdr-ok float json no_vars answers ctx

pane_named :
    json_get json value_of_reply (codes "result" ∷ codes "pane" ∷ codes "pane_id" ∷ [])
    ≡ some (string_of (codes "w1:p2"))
unfolding json_get
pane_named = refl

abbrev gone : Poll
gone = record { try_wait = Reply.exited true; past_deadline = true }

finish_nvim-acknowledged_example :
    ((finish_nvim in_nvim answers (text (codes "1\n")) (gone ∷ []) ctx cancelled).1
      ≡ sent (acknowledged, false))
    ↔ (Told answers ctx
          (finished cancelled)
          (socket in_nvim)
          (finish_nvim in_nvim answers (text (codes "1\n")) (gone ∷ []) ctx cancelled).0
        × Accepts (text (codes "1\n")) (gone ∷ []))
finish_nvim-acknowledged_example =
    finish_nvim-acknowledged in_nvim answers (text (codes "1\n")) (gone ∷ []) ctx cancelled
      (omega arith) tt
