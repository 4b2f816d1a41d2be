-- ===== src/Mux/Spawn/Opens.antt =====
-- What runs in the pane that src/mux.rs opens.
use direnv_instant.Prelude.{
  Text, codes, Bool, true, false, Option, none, some, List, [], ◌∷◌, ◌++◌, ◌≡◌, ◌≢◌, refl, ap,
  subst, ◌∙◌, if◌then◌else◌, append_assoc,
}
use direnv_instant.Env.{Env, var}
use direnv_instant.Shell.{escaped}
use direnv_instant.Shell.Words.{
  read_words, gap, begin, read_words-quoted, read_words-quoted_last, prepend-begin,
}
use direnv_instant.Mux.Detect.{Multiplexer, tmux, zellij, wezterm, kitty, herdr, nvim, kitty_var}
use direnv_instant.Mux.Settings.{kitty_launch_args}
use direnv_instant.Mux.Json.{Tinyjson, Float, parse_pane_id}
use direnv_instant.Mux.Spawn.{
  Command, Call, output, spawn, Output, SpawnError, Answers, Spawning, shell_quote, bin_of,
  watch_args, watch_cmd, after_split, run_in_pane, pane_height, split_failed, split_command,
  or_default, spawn_herdr, spawn_kitty, herdr_split_ratio, spawn_pane,
}
use direnv_instant.Daemon.Context.{DaemonContext}
use direnv_instant.Commands.Main.{dispatch, to_watch}

-- The words behind `exec`, and a shell line in which herdr gets them.
shell_quote_lem : (s : Text) → shell_quote s ≡ b'\'' ∷ (escaped s ++ codes "'")
unfolding shell_quote escaped
shell_quote_lem s = refl

quoted_then :
    (s rest : Text)
    → read_words gap (shell_quote s ++ (b' ' ∷ rest)) ≡ begin s (read_words gap rest)
quoted_then s rest = rw (shell_quote_lem s, append_assoc) (read_words-quoted s rest)

quoted_last : (s : Text) → read_words gap (shell_quote s) ≡ some (s ∷ [])
quoted_last s = rw (shell_quote_lem s) (read_words-quoted_last s)

exec_then :
    (rest : Text)
    → read_words gap (codes "exec " ++ rest) ≡ begin (codes "exec") (read_words gap rest)
unfolding read_words
exec_then rest = prepend-begin (codes "exec") [] (read_words gap rest)

watch_then :
    (rest : Text)
    → read_words gap (codes "watch " ++ rest) ≡ begin (codes "watch") (read_words gap rest)
unfolding read_words
watch_then rest = prepend-begin (codes "watch") [] (read_words gap rest)

-- As a POSIX shell splits it, the line that herdr types is `exec` with the words of the command,
-- whatever characters they hold.
pub read_words-watch_cmd :
    (bin : Text) (ctx : DaemonContext)
    → read_words gap (watch_cmd bin ctx) ≡ some (codes "exec" ∷ watch_args bin ctx)
unfolding watch_cmd
read_words-watch_cmd bin ctx =
    exec_then _
    ∙ ap (begin (codes "exec")) (
        quoted_then bin _
        ∙ ap (begin bin) (
            watch_then _
            ∙ ap (begin (codes "watch")) (
                quoted_then ctx.temp_stderr _
                ∙ ap (begin ctx.temp_stderr) (quoted_last ctx.socket_path))))

abbrev last_of : List Text → Text
last_of [] = []
last_of (x ∷ []) = x
last_of (x ∷ y ∷ xs) = last_of (y ∷ xs)

-- The words that the multiplexer is given for the pane: its arguments, of which herdr types the last
-- one into a shell.
abbrev pub pane_words : Multiplexer → List Text → Option (List Text)
pane_words herdr args = read_words gap (last_of args)
pane_words tmux args = some args
pane_words zellij args = some args
pane_words wezterm args = some args
pane_words kitty args = some args
pane_words nvim args = none

-- The last call starts a command whose words for the pane end in those of the watch command.
abbrev pub Opens : Multiplexer → List Text → List Call → Type 0
Opens m command calls =
    (before : List Call) × (c : Command) × (lead : List Text) × (calls ≡ before ++ spawn c ∷ [])
    × (pane_words m c.args ≡ some (lead ++ command))

kitty-Opens :
    (listen_on : Option Text) (launch : List Text) (a : Answers) (ctx : DaemonContext)
    → (spawn_kitty listen_on launch a ctx).1 ≡ none
    → Opens kitty (watch_args (bin_of a) ctx) (spawn_kitty listen_on launch a ctx).0
kitty-Opens none launch a ctx h = absurd (cc)
kitty-Opens (some listen_on) launch a ctx h =
    ([], _, codes "@" ∷ codes "--to" ∷ listen_on ∷ codes "launch" ∷ launch, refl, refl)

herdr_run-Opens :
    (a : Answers) (ctx : DaemonContext) (id : Option Text) (calls : List Call)
    → (run_in_pane a ctx id).1 ≡ none
    → Opens herdr (watch_args (bin_of a) ctx) (calls ++ (run_in_pane a ctx id).0)
unfolding run_in_pane
herdr_run-Opens a ctx none calls h = absurd (cc)
herdr_run-Opens a ctx (some id) calls h =
    (calls, _, codes "exec" ∷ [], refl, read_words-watch_cmd (bin_of a) ctx)

if-Opens :
    (m : Multiplexer) (command : List Text) (calls : List Call) (b : Bool) (r : Spawning)
    (e : SpawnError)
    → (r.1 ≡ none → Opens m command (calls ++ r.0))
    → (if b then r else ([], some e)).1 ≡ none
    → Opens m command (calls ++ (if b then r else ([], some e)).0)
if-Opens m command calls true r e opens h = opens h
if-Opens m command calls false r e opens h = absurd (cc)

module _ (float : Float) (json : Tinyjson float.Number) (env : Env) (a : Answers)
    (ctx : DaemonContext) where
  after_split-Opens :
      (split : Option Output) (calls : List Call)
      → (after_split float json a ctx split).1 ≡ none
      → Opens herdr (watch_args (bin_of a) ctx) (calls ++ (after_split float json a ctx split).0)
  unfolding after_split
  after_split-Opens none calls h = absurd (cc)
  after_split-Opens (some out) calls h =
      let id = parse_pane_id json out.stdout in
      if-Opens herdr (watch_args (bin_of a) ctx) calls out.success (run_in_pane a ctx id)
        split_failed (herdr_run-Opens a ctx id calls) h

  -- Whenever a multiplexer other than Neovim reports that it opened a pane, the last thing it started
  -- gets the words of the watch command for the load, whatever characters its paths hold, where the
  -- line that herdr types is split as a POSIX shell does, and these words ask `main` for a watch of the
  -- load's log on the daemon's socket.
  pub spawn_pane-Opens :
      (m : Multiplexer)
      → m ≢ nvim
      → (spawn_pane float json m env a ctx).1 ≡ none
      → Opens m (watch_args (bin_of a) ctx) (spawn_pane float json m env a ctx).0
        × (dispatch (watch_args (bin_of a) ctx) ≡ to_watch ctx.temp_stderr ctx.socket_path)
  unfolding spawn_pane spawn_herdr dispatch
  spawn_pane-Opens tmux n h =
      (([], _, codes "split-window" ∷ codes "-d" ∷ codes "-l" ∷ pane_height ∷ [], refl, refl), refl)
  spawn_pane-Opens zellij n h = (
    (
      [],
      _,
      codes "action"
          ∷ codes "new-pane"
          ∷ codes "-d"
          ∷ codes "down"
          ∷ codes "--width"
          ∷ pane_height
          ∷ codes "--close-on-exit"
          ∷ codes "--"
          ∷ [],
      refl,
      refl,
    ),
    refl,
  )
  spawn_pane-Opens wezterm n h = (
    (
      [],
      _,
      codes "cli" ∷ codes "split-pane" ∷ codes "--bottom" ∷ codes "--cells" ∷ pane_height ∷ [],
      refl,
      refl,
    ),
    refl,
  )
  spawn_pane-Opens kitty n h =
      (kitty-Opens (var env kitty_var) (kitty_launch_args env) a ctx h, refl)
  spawn_pane-Opens nvim n h = absurd (n refl)
  spawn_pane-Opens herdr n h =
      let (calls, ratio) = herdr_split_ratio float json env a in
      let split = output (split_command (float.three_digits (or_default float json ratio))) in
      (
        subst (Opens herdr (watch_args (bin_of a) ctx))
            (append_assoc calls (split ∷ []) (after_split float json a ctx a.split).0)
            (after_split-Opens a.split (calls ++ split ∷ []) h),
        refl,
      )
