-- ===== src/Commands/Start/Others.antt =====
-- What becomes of the shells that a daemon knows when other shells run the start and stop commands of
-- src/commands.
use direnv_instant.Prelude.{
  ℕ, Text, codes, text_eq, read_line, append-nil, display, ℤ, IsI32, Bool, true, false, Option,
  some, List, [], ◌∷◌, ◌++◌, ◌≡◌, ◌≢◌, refl, sym, ap, subst, ◌∙◌, arith, if◌then◌else◌, inl, inr,
  All, All-append,
}
use direnv_instant.Env.{var}
use direnv_instant.Shell.{Shell, nushell, bash, zsh, fish, from_env}
use direnv_instant.Daemon.Protocol.{notify, detach, stop, notify_message, detach_message}
use direnv_instant.Daemon.Registry.{Shared, contains, serve}
use direnv_instant.Daemon.Registry.Pids.{NodupPids}
use direnv_instant.Daemon.Registry.Requests.{pid_of_line, pid_line}
use direnv_instant.Daemon.Registry.View.{request_of, request_of_line}
use direnv_instant.Daemon.Registry.Stopping.{serve_protects}
use direnv_instant.Commands.{
  World, Event, print, complain, send, probe, unlink, exec_direnv, capture_direnv, write_file,
  daemonize, exit, panicked, shell_pid, current_var,
}
use direnv_instant.Commands.Start.Messages.{Polite, run_for-Polite, leave-Polite}
use direnv_instant.Commands.Start.{run, run_as}
use direnv_instant.Commands.Stop.{run_stop}

request_of_notify_line :
    (pid : ℤ)
    → IsI32 pid
    → request_of_line (codes "NOTIFY " ++ (display pid ++ codes "\n")) ≡ some (notify pid)
unfolding request_of_line
request_of_notify_line pid h = rw (request_of_line, pid_of_line pid h)

request_of_detach_line :
    (pid : ℤ)
    → IsI32 pid
    → request_of_line (codes "STOP " ++ (display pid ++ codes "\n")) ≡ some (detach pid)
unfolding request_of_line
request_of_detach_line pid h = rw (request_of_line, pid_of_line pid h)

request_of-notify :
    (pid : ℤ) → IsI32 pid → request_of (some (notify_message pid)) ≡ some (notify pid)
unfolding request_of notify_message
request_of-notify pid h =
    ap (λ t. request_of_line (read_line t)) (sym (append-nil (notify_message pid)))
    ∙ ap request_of_line (pid_line (codes "NOTIFY ") pid [] (omega arith))
    ∙ request_of_notify_line pid h

request_of-detach :
    (pid : ℤ) → IsI32 pid → request_of (some (detach_message pid)) ≡ some (detach pid)
unfolding request_of detach_message
request_of-detach pid h =
    ap (λ t. request_of_line (read_line t)) (sym (append-nil (detach_message pid)))
    ∙ ap request_of_line (pid_line (codes "STOP ") pid [] (omega arith))
    ∙ request_of_detach_line pid h

-- What the daemon at a path reads, a connection without a message included.
abbrev pub received_at : Text → List Event → List (Option Text)
received_at path [] = []
received_at path (send q m ∷ es) =
    let rest = received_at path es in if text_eq q path then some m ∷ rest else rest
received_at path (probe q ∷ es) =
    let rest = received_at path es in if text_eq q path then some [] ∷ rest else rest
received_at path (print line ∷ es) = received_at path es
received_at path (complain line ∷ es) = received_at path es
received_at path (unlink q ∷ es) = received_at path es
received_at path (exec_direnv shell show_errors ∷ es) = received_at path es
received_at path (daemonize ctx ∷ es) = received_at path es
received_at path (capture_direnv show_errors ∷ es) = received_at path es
received_at path (write_file q contents ∷ es) = received_at path es
received_at path (exit code ∷ es) = received_at path es
received_at path (panicked ∷ es) = received_at path es

-- Neither a forced stop nor a detach of `p`.
abbrev pub Harmless : ℤ → Option Text → Type 0
Harmless p c = (request_of c ≢ some stop) × (request_of c ≢ some (detach p))

Harmless-notify : (p pid : ℤ) → IsI32 pid → Harmless p (some (notify_message pid))
Harmless-notify p pid h = (λ e. cc (request_of-notify pid h), λ e. cc (request_of-notify pid h))

Harmless-detach : (p pid : ℤ) → IsI32 pid → pid ≢ p → Harmless p (some (detach_message pid))
Harmless-detach p pid h n =
    (λ e. cc (request_of-detach pid h), λ e. n (cc (request_of-detach pid h)))

Harmless-silence : (p : ℤ) → Harmless p (some [])
unfolding request_of request_of_line read_line
Harmless-silence p = (λ e. cc, λ e. cc)

module _ (p pid : ℤ) (h : IsI32 pid) (n : pid ≢ p) (path : Text) where
  Harmless-sent : (m : Text) → Polite pid (send path m) → Harmless p (some m)
  Harmless-sent m (inl e) = subst (λ t. Harmless p (some t)) (sym e) (Harmless-notify p pid h)
  Harmless-sent m (inr e) = subst (λ t. Harmless p (some t)) (sym e) (Harmless-detach p pid h n)

  All-received :
      (b : Bool) (c : Option Text) (cs : List (Option Text))
      → Harmless p c
      → All (Harmless p) cs
      → All (Harmless p) (if b then c ∷ cs else cs)
  All-received true c cs hc hs = (hc, hs)
  All-received false c cs hc hs = hs

  received_at-Harmless :
      (es : List Event) → All (Polite pid) es → All (Harmless p) (received_at path es)
  received_at-Harmless [] _ = tt
  received_at-Harmless (send q m ∷ es) (polite, hs) =
      All-received (text_eq q path) (some m) _ (Harmless-sent m polite) (received_at-Harmless es hs)
  received_at-Harmless (probe q ∷ es) (polite, hs) =
      All-received (text_eq q path) (some []) _ (Harmless-silence p) (received_at-Harmless es hs)
  received_at-Harmless (print line ∷ es) (polite, hs) = received_at-Harmless es hs
  received_at-Harmless (complain line ∷ es) (polite, hs) = received_at-Harmless es hs
  received_at-Harmless (unlink q ∷ es) (polite, hs) = received_at-Harmless es hs
  received_at-Harmless (exec_direnv shell show_errors ∷ es) (polite, hs) =
      received_at-Harmless es hs
  received_at-Harmless (daemonize ctx ∷ es) (polite, hs) = received_at-Harmless es hs
  received_at-Harmless (capture_direnv show_errors ∷ es) (polite, hs) = received_at-Harmless es hs
  received_at-Harmless (write_file q contents ∷ es) (polite, hs) = received_at-Harmless es hs
  received_at-Harmless (exit code ∷ es) (polite, hs) = received_at-Harmless es hs
  received_at-Harmless (panicked ∷ es) (polite, hs) = received_at-Harmless es hs

-- A command of one shell.
pub data Act : Type 0 where
  start_as : World → Act
  stop_as : World → Act

abbrev pub pid_of : Act → ℤ
pid_of (start_as w) = shell_pid w
pid_of (stop_as w) = shell_pid w

-- Every start command but that of Nushell.
abbrev pub IsJobShell : Act → Type 0
IsJobShell (start_as w) = from_env w.env ≢ nushell
IsJobShell (stop_as w) = Unit

module _ (dir_hash : Text → Option Text → ℕ) where
  abbrev pub acted : Act → List Event
  acted (start_as w) = run dir_hash w
  acted (stop_as w) = run_stop dir_hash w

  run_as-Polite :
      (w : World) (shell : Shell)
      → shell ≢ nushell
      → All (Polite (shell_pid w)) (run_as dir_hash w shell)
  unfolding run_as
  run_as-Polite w nushell n = absurd (n refl)
  run_as-Polite w bash n = run_for-Polite dir_hash w bash
  run_as-Polite w zsh n = run_for-Polite dir_hash w zsh
  run_as-Polite w fish n = run_for-Polite dir_hash w fish

  run-Polite : (w : World) → from_env w.env ≢ nushell → All (Polite (shell_pid w)) (run dir_hash w)
  unfolding run
  run-Polite w n = run_as-Polite w (from_env w.env) n

  acted-Polite : (a : Act) → IsJobShell a → All (Polite (pid_of a)) (acted a)
  unfolding run_stop
  acted-Polite (start_as w) n = run-Polite w n
  acted-Polite (stop_as w) n = leave-Polite dir_hash w (var w.env current_var)

  -- What the daemon at a path reads from the commands, one after the other.
  abbrev pub history : Text → List Act → List (Option Text)
  history path [] = []
  history path (a ∷ acts) = received_at path (acted a) ++ history path acts

module _ (dir_hash : Text → Option Text → ℕ) (path : Text) (p : ℤ) where
  history-Harmless :
      (acts : List Act)
      → All (λ a. IsI32 (pid_of a) × (pid_of a ≢ p) × IsJobShell a) acts
      → All (Harmless p) (history dir_hash path acts)
  history-Harmless [] _ = tt
  history-Harmless (a ∷ acts) ((h, n, j), hs) =
      All-append (Harmless p) (received_at path (acted dir_hash a)) (history dir_hash path acts)
        (received_at-Harmless p (pid_of a) h n path (acted dir_hash a) (acted-Polite dir_hash a j))
        (history-Harmless acts hs)

  -- Whatever start and stop commands of other shells reach a daemon one after the other, each shell
  -- with a pid in the range of an i32 and no start command for a Nushell among them, in whatever
  -- directories they run, a registered shell stays registered and the stop flag stays clear.
  pub serve-history :
      (acts : List Act) (s : Shared)
      → All (λ a. IsI32 (pid_of a) × (pid_of a ≢ p) × IsJobShell a) acts
      → NodupPids s.notify_pids
      → contains s.notify_pids p ≡ true
      → s.should_stop ≡ false
      → ((serve (history dir_hash path acts) s).should_stop ≡ false)
        × (contains (serve (history dir_hash path acts) s).notify_pids p ≡ true)
  serve-history acts s others nodup member running =
      serve_protects p (history dir_hash path acts) s nodup member running
        (history-Harmless acts others)
