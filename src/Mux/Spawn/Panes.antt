-- ===== src/Mux/Spawn/Panes.antt =====
-- What is asked for when src/mux.rs has opened a pane, for every multiplexer.
use direnv_instant.Prelude.{
  Text, IsI32, Option, none, some, List, [], ◌∷◌, ◌≡◌, refl, Bool-cases, inl, inr,
}
use direnv_instant.Env.{Env}
use direnv_instant.Mux.Detect.{Multiplexer, tmux, zellij, wezterm, kitty, herdr, nvim, socket}
use direnv_instant.Mux.Json.{Tinyjson, Float}
use direnv_instant.Mux.Nvim.{watch, expression}
use direnv_instant.Mux.Nvim.Call.{call_of, read_expression, read_expression-expression}
use direnv_instant.Mux.Spawn.{
  Call, spawn, watch_reply, Answers, bin_of, watch_args, nvim_command, request_to, with_thread,
  spawn_nvim, spawn_pane,
}
use direnv_instant.Mux.Spawn.Opens.{Opens, spawn_pane-Opens}
use direnv_instant.Daemon.Context.{DaemonContext}
use direnv_instant.Commands.Main.{dispatch, to_watch}

-- Neovim gets a text that reads as the call to watch the load, and a thread waits for its reply.
abbrev pub CallsWatch : Text → DaemonContext → List Call → Type 0
CallsWatch bin ctx calls =
    (server e : Text) × (calls ≡ spawn (nvim_command server e) ∷ watch_reply ∷ [])
    × (read_expression e ≡ some (call_of ctx (watch bin)))

-- The last command hands the words of the watch command to the pane, and `main` takes them for a watch
-- of the load.
abbrev RunsWatch : Multiplexer → Text → DaemonContext → List Call → Type 0
RunsWatch m bin ctx calls =
    Opens m (watch_args bin ctx) calls
    × (dispatch (watch_args bin ctx) ≡ to_watch ctx.temp_stderr ctx.socket_path)

abbrev pub Watches : Multiplexer → Text → DaemonContext → List Call → Type 0
Watches nvim bin ctx calls = CallsWatch bin ctx calls
Watches tmux bin ctx calls = RunsWatch tmux bin ctx calls
Watches zellij bin ctx calls = RunsWatch zellij bin ctx calls
Watches wezterm bin ctx calls = RunsWatch wezterm bin ctx calls
Watches kitty bin ctx calls = RunsWatch kitty bin ctx calls
Watches herdr bin ctx calls = RunsWatch herdr bin ctx calls

request_to-CallsWatch :
    (server : Option Text) (a : Answers) (ctx : DaemonContext)
    → IsI32 ctx.parent_pid
    → (with_thread (request_to server a ctx (watch (bin_of a)))).1 ≡ none
    → CallsWatch (bin_of a) ctx (with_thread (request_to server a ctx (watch (bin_of a)))).0
unfolding request_to
request_to-CallsWatch none a ctx pid h = absurd (cc)
request_to-CallsWatch (some server) a ctx pid h = elim (Bool-cases a.spawned) [
  | inl on ↦ rw on (
    server,
    expression ctx (watch (bin_of a)),
    refl,
    read_expression-expression ctx (watch (bin_of a)) pid tt,
  )
  | inr off ↦ absurd (cc (rw off at h))
]

module _ (float : Float) (json : Tinyjson float.Number) (env : Env) (a : Answers)
    (ctx : DaemonContext) where
  -- Whenever a multiplexer reports that it opened a pane, a watch of the load's log on the daemon's
  -- socket is asked for: Neovim gets a text that reads as the call for it, and any other
  -- multiplexer the words of the watch command, which `main` takes for it. For herdr these are the
  -- words into which a POSIX shell splits the line that herdr types, so the pane's shell is taken
  -- to read single quotes as such a shell does; under that condition the paths may hold any
  -- characters. The pid of the shell is an i32.
  pub spawn_pane-Watches :
      (m : Multiplexer)
      → IsI32 ctx.parent_pid
      → (spawn_pane float json m env a ctx).1 ≡ none
      → Watches m (bin_of a) ctx (spawn_pane float json m env a ctx).0
  unfolding spawn_pane spawn_nvim
  spawn_pane-Watches nvim pid h = request_to-CallsWatch (socket env) a ctx pid h
  spawn_pane-Watches tmux pid h = spawn_pane-Opens float json env a ctx tmux (λ e. cc) h
  spawn_pane-Watches zellij pid h = spawn_pane-Opens float json env a ctx zellij (λ e. cc) h
  spawn_pane-Watches wezterm pid h = spawn_pane-Opens float json env a ctx wezterm (λ e. cc) h
  spawn_pane-Watches kitty pid h = spawn_pane-Opens float json env a ctx kitty (λ e. cc) h
  spawn_pane-Watches herdr pid h = spawn_pane-Opens float json env a ctx herdr (λ e. cc) h
