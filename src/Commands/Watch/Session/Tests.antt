-- ===== src/Commands/Watch/Session/Tests.antt =====
-- Watches of src/commands/watch.rs at concrete answers.
use direnv_instant.Prelude.{
  ℕ, ◌+◌, codes, pos, true, false, none, some, is_some, List, [], ◌∷◌, ◌≡◌, refl, if◌then◌else◌,
}
use direnv_instant.Daemon.Protocol.{watch_message}
use direnv_instant.Daemon.Registry.{
  Shared, Reply, quiet, master, unavailable, lost, handle_connection, serve,
}
use direnv_instant.Commands.Start.Others.{received_at}
use direnv_instant.Commands.Watch.{Pane, eintr, ready, Round, watch_round}
use direnv_instant.Commands.Watch.Ends.{Continues}
use direnv_instant.Commands.Watch.Session.{
  Session, Termios, ControlMessage, ask_pty, first_pane, returned, scm_rights, other, readable,
  open_log, wait_for_log, ask_on_terminal, run_watch,
}
use direnv_instant.Commands.Watch.Session.Pty.{
  Delivers, answered, copied, ask_pty-handle_connection,
}
use direnv_instant.Commands.Watch.Session.Requests.{
  interrupted_by, run_watch-serve, run_watch-stops,
}
use direnv_instant.Commands.Watch.Session.Terminal.{run_watch-restores}

-- The log is closed in the first round.
abbrev closed : Round
closed = record {
  interrupted = false;
  resized = false;
  select = ready none (some (some []));
  rest = some (codes "end") ∷ some [] ∷ [];
  log = none;
}

-- The second attempt opens the log, and the daemon sends descriptor 7.
abbrev session : Session
session = record {
  attempts = record { opened = false; elapsed = 20 } ∷ record { opened = true; elapsed = 40 } ∷ [];
  is_terminal = true;
  asking = record {
    connected = true;
    written = true;
    selected = readable;
    received = some (other ∷ scm_rights (7 ∷ []) ∷ []);
  };
  got_termios = true;
  made_raw = true;
  monitors = true;
  rounds = closed ∷ [];
  late = false;
  restores = true;
}

abbrev terminal : Termios
terminal = record {
  canonical = true;
  echo = true;
  isig = true;
  icrnl = true;
  ixon = true;
  rest = 3;
}

session_returns : (run_watch session (codes "/r/daemon.sock") terminal).end ≡ returned
unfolding run_watch
session_returns = refl

run_watch-restores_example :
    (run_watch session (codes "/r/daemon.sock") terminal).termios ≡ terminal
run_watch-restores_example =
    run_watch-restores session (codes "/r/daemon.sock") terminal refl session_returns

-- The kernel numbers its copies from 100 on.
abbrev deliver : Reply → List ControlMessage
deliver quiet = []
deliver (master fd) = scm_rights ((100 + fd) ∷ []) ∷ []
deliver unavailable = []
deliver lost = []

abbrev copy : ℕ → ℕ
copy fd = 100 + fd

deliver-Delivers : Delivers copy deliver
deliver-Delivers = record { with_master = λ fd. refl; with_unavailable = refl; with_lost = refl }

abbrev shared : Shared
shared = record { notify_pids = pos 42 ∷ []; should_stop = false; pty_master = some 7 }

ask_pty-handle_connection_example :
    let r = handle_connection (some watch_message) true shared in
    ((ask_pty (answered (deliver r.1)) (codes "/r/daemon.sock")).1 ≡ copied copy true (some 7))
    × (r.0 ≡ shared)
ask_pty-handle_connection_example =
    ask_pty-handle_connection copy deliver deliver-Delivers true shared (codes "/r/daemon.sock")

run_watch-serve_example :
    serve
      (received_at
        (codes "/r/daemon.sock")
        (run_watch session (codes "/r/daemon.sock") terminal).events)
      shared
    ≡ (if interrupted_by (codes "/r/daemon.sock") session
        then record shared { should_stop = true }
        else shared)
run_watch-serve_example = run_watch-serve (codes "/r/daemon.sock") session terminal shared

-- A round that SIGWINCH breaks off, and one that finds a SIGINT of another process.
abbrev resized : Round
resized = record closed { resized = true; select = eintr }

abbrev interrupted : Round
interrupted = record closed { interrupted = true }

abbrev cancelling : Session
cancelling = record session { rounds = resized ∷ interrupted ∷ [] }

abbrev one_resize : Pane
one_resize = record { shown = []; forwarded = []; resizes = 2 }

resized-Continues :
    Continues
      (is_some (ask_on_terminal cancelling (codes "/r/daemon.sock")).1)
      (resized ∷ [])
      (first_pane (ask_on_terminal cancelling (codes "/r/daemon.sock")).1)
      one_resize
unfolding watch_round ask_on_terminal
resized-Continues = (_, refl, refl)

cancelling_opened : wait_for_log cancelling.attempts ≡ open_log
unfolding wait_for_log
cancelling_opened = refl

run_watch-stops_example :
    ((run_watch cancelling (codes "/r/daemon.sock") terminal).end ≡ returned)
    × ((serve
          (received_at
            (codes "/r/daemon.sock")
            (run_watch cancelling (codes "/r/daemon.sock") terminal).events)
          shared).should_stop
        ≡ true)
    × ((run_watch cancelling (codes "/r/daemon.sock") terminal).termios ≡ terminal)
run_watch-stops_example =
    run_watch-stops (codes "/r/daemon.sock") cancelling terminal shared (resized ∷ []) interrupted
      [] one_resize cancelling_opened refl refl resized-Continues refl refl
