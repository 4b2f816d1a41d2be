-- ===== src/Mux/Spawn.antt =====
-- `Multiplexer::spawn` of src/mux.rs and `spawn` of src/mux/nvim.rs: the processes that open a pane on
-- a load.
pub mod Opens
pub mod Herdr
pub mod Neovim
pub mod Panes
pub mod Tests
use direnv_instant.Prelude.{
  ℕ, Text, codes, replace, Bool, true, false, Option, none, some, List, [], ◌∷◌, ◌++◌,
  if◌then◌else◌, ◌>>=◌,
}
use direnv_instant.Env.{Env, var}
use direnv_instant.Mux.Detect.{
  Multiplexer, tmux, zellij, wezterm, kitty, herdr, nvim, kitty_var, socket,
}
use direnv_instant.Mux.Settings.{kitty_launch_args}
use direnv_instant.Mux.Json.{Tinyjson, Float, parse_pane_id, parse_pane_height}
use direnv_instant.Mux.Nvim.{Event, watch, finished, expression}
use direnv_instant.Mux.Nvim.Reply.{Stdout, Poll, Outcome, wait_for_reply}
use direnv_instant.Daemon.Context.{DaemonContext, LoadOutcome}

pub record Command : Type 0 where
  pub program : Text
  pub args : List Text

pub data Call : Type 0 where
  output : Command → Call  -- runs to its end
  spawn : Command → Call  -- is started
  watch_reply : Call  -- a thread waits for the reply of the process that was started last

-- What a process that ran to its end left: success, and its standard output.
pub record Output : Type 0 where
  pub success : Bool
  pub stdout : Text

pub data SpawnError : Type 0 where
  io : SpawnError
  no_kitty_var : SpawnError
  split_failed : SpawnError
  no_pane_id : SpawnError
  no_socket : SpawnError

-- What the calls of one `spawn` answer.
pub record Answers : Type 0 where
  pub current_exe : Option Text
  pub layout : Option Output
  pub split : Option Output
  pub spawned : Bool

-- What was done, and the error if there is one.
abbrev pub Spawning : Type 0
Spawning = List Call × Option SpawnError

abbrev pub pane_height : Text
pane_height = codes "10"

abbrev or_name : Option Text → Text
or_name none = codes "direnv-instant"
or_name (some path) = path

abbrev pub bin_of : Answers → Text
bin_of a = or_name a.current_exe

unfoldable pub shell_quote : Text → Text
unfolding replace
shell_quote s = b'\'' ∷ (replace b'\'' (codes "'\\''") s ++ codes "'")

-- The arguments behind those of the multiplexer.
abbrev pub watch_args : Text → DaemonContext → List Text
watch_args bin ctx = bin ∷ codes "watch" ∷ ctx.temp_stderr ∷ ctx.socket_path ∷ []

abbrev pub started : Answers → Command → Spawning
started a c = (spawn c ∷ [], if a.spawned then none else some io)

unfoldable pub watch_cmd : Text → DaemonContext → Text
unfolding shell_quote
watch_cmd bin ctx =
    codes "exec "
    ++ (shell_quote bin
        ++ (codes " watch "
            ++ (shell_quote ctx.temp_stderr ++ (codes " " ++ shell_quote ctx.socket_path))))

abbrev pub layout_command : Command
layout_command = record {
  program = codes "herdr";
  args = codes "pane" ∷ codes "layout" ∷ codes "--current" ∷ [];
}

abbrev pub split_command : Text → Command
split_command ratio = record {
  program = codes "herdr";
  args =
      codes "pane"
      ∷ codes "split"
      ∷ codes "--current"
      ∷ codes "--direction"
      ∷ codes "down"
      ∷ codes "--no-focus"
      ∷ codes "--ratio"
      ∷ ratio
      ∷ [];
}

abbrev pub run_command : Text → Text → Command
run_command pane_id line = record {
  program = codes "herdr";
  args = codes "pane" ∷ codes "run" ∷ pane_id ∷ line ∷ [];
}

-- `Some(text)` where the process was run and succeeded.
abbrev pub succeeded : Option Output → Option Text
succeeded none = none
succeeded (some out) = if out.success then some out.stdout else none

abbrev pub run_in_pane : Answers → DaemonContext → Option Text → Spawning
unfolding watch_cmd
run_in_pane a ctx none = ([], some no_pane_id)
run_in_pane a ctx (some pane_id) = started a (run_command pane_id (watch_cmd (bin_of a) ctx))

-- `nvim --server … --remote-expr …`
abbrev pub nvim_command : Text → Text → Command
nvim_command server text = record {
  program = codes "nvim";
  args = codes "--server" ∷ server ∷ codes "--remote-expr" ∷ text ∷ [];
}

abbrev pub request_to : Option Text → Answers → DaemonContext → Event → Spawning
unfolding expression
request_to none a ctx event = ([], some no_socket)
request_to (some server) a ctx event = started a (nvim_command server (expression ctx event))

-- `spawn_request` of src/mux/nvim.rs
unfoldable pub spawn_request : Env → Answers → DaemonContext → Event → Spawning
unfolding socket request_to
spawn_request env a ctx event = request_to (socket env) a ctx event

abbrev pub with_thread : Spawning → Spawning
with_thread (calls, none) = (calls ++ watch_reply ∷ [], none)
with_thread (calls, some e) = (calls, some e)

-- `nvim::spawn`
unfoldable pub spawn_nvim : Env → Answers → DaemonContext → Spawning
unfolding spawn_request
spawn_nvim env a ctx = with_thread (spawn_request env a ctx (watch (bin_of a)))

-- What the report at the end of a load comes to: no request, or the wait for the reply, and whether
-- the client has been killed.
pub data Report : Type 0 where
  not_sent : SpawnError → Report
  sent : Outcome × Bool → Report

abbrev pub on_request : Stdout → List Poll → Spawning → List Call × Report
unfolding wait_for_reply
on_request stdout polls (calls, none) = (calls, sent (wait_for_reply stdout polls))
on_request stdout polls (calls, some e) = (calls, not_sent e)

-- `nvim::finish`
unfoldable pub finish_nvim :
    Env → Answers → Stdout → List Poll → DaemonContext → LoadOutcome → List Call × Report
unfolding spawn_request on_request
finish_nvim env a stdout polls ctx outcome =
    on_request stdout polls (spawn_request env a ctx (finished outcome))

abbrev pub spawn_kitty : Option Text → List Text → Answers → DaemonContext → Spawning
spawn_kitty none launch a ctx = ([], some no_kitty_var)
spawn_kitty (some listen_on) launch a ctx = started a (record {
  program = codes "kitty";
  args =
      codes "@" ∷ codes "--to" ∷ listen_on ∷ codes "launch" ∷ (launch ++ watch_args (bin_of a) ctx);
})

module _ (float : Float) (json : Tinyjson float.Number) where
  open float use {Number, literal, minus, over, greater, clamp, three_digits}

  -- The fraction that the split keeps for the old pane, from the height of that pane.
  abbrev pub kept : Number → Number
  kept rows =
      clamp (minus (literal (codes "1.0")) (over (literal pane_height) rows))
        (literal (codes "0.5")) (literal (codes "0.9"))

  abbrev pub ratio_in : Answers → Text → Option Number
  unfolding parse_pane_height
  ratio_in a pane_id = succeeded a.layout >>= λ stdout.
      parse_pane_height json (λ x. greater x (literal (codes "0.0"))) stdout pane_id >>= λ rows.
      some (kept rows)

  -- `herdr_split_ratio`: what it runs, and what it returns.
  unfoldable pub herdr_split_ratio : Env → Answers → List Call × Option Number
  unfolding ratio_in
  herdr_split_ratio env a = elim (var env (codes "HERDR_PANE_ID")) [
    | none ↦ ([], none)
    | some pane_id ↦ (output layout_command ∷ [], ratio_in a pane_id)
  ]

  abbrev pub or_default : Option Number → Number
  or_default none = literal (codes "0.75")
  or_default (some x) = x

  abbrev pub after_split : Answers → DaemonContext → Option Output → Spawning
  unfolding run_in_pane parse_pane_id
  after_split a ctx none = ([], some io)
  after_split a ctx (some out) =
      if out.success
      then run_in_pane a ctx (parse_pane_id json out.stdout)
      else ([], some split_failed)

  -- `spawn_herdr`
  unfoldable pub spawn_herdr : Env → Answers → DaemonContext → Spawning
  unfolding herdr_split_ratio after_split
  spawn_herdr env a ctx =
      let (calls, ratio) = herdr_split_ratio env a in
      let (later, error) = after_split a ctx a.split in
      (calls ++ (output (split_command (three_digits (or_default ratio))) ∷ later), error)

  -- `Multiplexer::spawn`
  unfoldable pub spawn_pane : Multiplexer → Env → Answers → DaemonContext → Spawning
  unfolding spawn_herdr spawn_nvim kitty_launch_args
  spawn_pane herdr env a ctx = spawn_herdr env a ctx
  spawn_pane nvim env a ctx = spawn_nvim env a ctx
  spawn_pane tmux env a ctx = started a (record {
    program = codes "tmux";
    args = codes "split-window" ∷ codes "-d" ∷ codes "-l" ∷ pane_height ∷ watch_args (bin_of a) ctx;
  })
  spawn_pane zellij env a ctx = started a (record {
    program = codes "zellij";
    args =
        codes "action"
        ∷ codes "new-pane"
        ∷ codes "-d"
        ∷ codes "down"
        ∷ codes "--width"
        ∷ pane_height
        ∷ codes "--close-on-exit"
        ∷ codes "--"
        ∷ watch_args (bin_of a) ctx;
  })
  spawn_pane wezterm env a ctx = started a (record {
    program = codes "wezterm";
    args =
        codes "cli"
        ∷ codes "split-pane"
        ∷ codes "--bottom"
        ∷ codes "--cells"
        ∷ pane_height
        ∷ watch_args (bin_of a) ctx;
  })
  spawn_pane kitty env a ctx = spawn_kitty (var env kitty_var) (kitty_launch_args env) a ctx
