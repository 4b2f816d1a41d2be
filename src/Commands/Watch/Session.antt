-- ===== src/Commands/Watch/Session.antt =====
-- `run` of src/commands/watch.rs as a whole: waiting for the log, asking the daemon for the pty, raw
-- mode, the loop, and the end.
pub mod Terminal
pub mod Pty
pub mod Requests
pub mod Tests
use direnv_instant.Prelude.{
  ℕ, Text, codes, Bool, true, false, ◌&&◌, Option, none, some, is_some, List, [], ◌∷◌, ◌++◌, ltb,
  if◌then◌else◌,
}
use direnv_instant.Daemon.Protocol.{watch_message}
use direnv_instant.Commands.{Event, send, probe, complain, exit}
use direnv_instant.Commands.Watch.{
  Round, Pane, Next, continue, broken, cancelled, watch, after_watch,
}

-- One attempt to open the log, and the nanoseconds that have passed when it has failed.
pub record Attempt : Type 0 where
  pub opened : Bool
  pub elapsed : ℕ

pub data LogWait : Type 0 where
  trying : LogWait  -- at the end of the attempts
  open_log : LogWait
  timed_out : LogWait

abbrev pub timeout : ℕ
timeout = 5000000000

-- The loop round `File::open`.
unfoldable pub wait_for_log : List Attempt → LogWait
wait_for_log [] = trying
wait_for_log (t ∷ ts) =
    let rest = wait_for_log ts in
    if t.opened then open_log else if ltb timeout t.elapsed then timed_out else rest

-- A control message of `recvmsg`.
pub data ControlMessage : Type 0 where
  scm_rights : List ℕ → ControlMessage
  other : ControlMessage

pub data Selected : Type 0 where
  readable : Selected
  elapsed : Selected
  select_error : Selected

-- What the calls on the first socket answer; `received` is `none` where `recvmsg` fails, and the
-- messages are none where they cannot be parsed.
pub record Asking : Type 0 where
  pub connected : Bool
  pub written : Bool
  pub selected : Selected
  pub received : Option (List ControlMessage)

-- The first message with a descriptor ends the search.
unfoldable pub received_fd : List ControlMessage → Option ℕ
received_fd [] = none
received_fd (other ∷ ms) = received_fd ms
received_fd (scm_rights [] ∷ ms) = received_fd ms
received_fd (scm_rights (fd ∷ fds) ∷ ms) = some fd

abbrev on_received : Option (List ControlMessage) → List Event × Option ℕ
unfolding received_fd
on_received none = (complain (codes "direnv-instant: Failed to receive PTY fd: ") ∷ [], none)
on_received (some messages) = ([], received_fd messages)

abbrev on_selected : Asking → Selected → List Event × Option ℕ
unfolding on_received
on_selected q readable = on_received q.received
on_selected q elapsed =
    (complain (codes "direnv-instant: Timeout waiting for PTY fd from daemon") ∷ [], none)
on_selected q select_error =
    (complain (codes "direnv-instant: select() error while waiting for PTY fd: ") ∷ [], none)

abbrev asked : Asking → Text → List Event × Option ℕ
unfolding on_selected watch_message
asked q socket_path =
    let (events, fd) = on_selected q q.selected in
    if q.written
    then (send socket_path watch_message ∷ events, fd)
    else (send socket_path watch_message ∷ [], none)

-- The first socket: what is done on it, and the descriptor of the pty.
unfoldable pub ask_pty : Asking → Text → List Event × Option ℕ
unfolding asked
ask_pty q socket_path = if q.connected then asked q socket_path else ([], none)

-- The settings of the terminal that raw mode clears; `rest` stands for all others.
pub record Termios : Type 0 where
  pub canonical : Bool
  pub echo : Bool
  pub isig : Bool
  pub icrnl : Bool
  pub ixon : Bool
  pub rest : ℕ

abbrev pub raw : Termios → Termios
raw t = record t { canonical = false; echo = false; isig = false; icrnl = false; ixon = false }

-- What the calls of one session answer.
pub record Session : Type 0 where
  pub attempts : List Attempt
  pub is_terminal : Bool
  pub asking : Asking
  pub got_termios : Bool  -- `tcgetattr`
  pub made_raw : Bool  -- `tcsetattr`, which changes nothing where it fails
  pub monitors : Bool  -- whether the second socket can be connected
  pub rounds : List Round
  pub late : Bool
  pub restores : Bool  -- `tcsetattr` when the guard is dropped

pub data End : Type 0 where
  running : End
  returned : End
  exited : End  -- with status 1

pub record Outcome : Type 0 where
  pub end : End
  pub termios : Termios
  pub events : List Event

-- `RawModeGuard::new`: the guard with the original settings, and the settings from now on.
unfoldable pub raw_mode : Session → Termios → Option Termios × Termios
raw_mode s t = if s.got_termios && s.made_raw then (some t, raw t) else (none, t)

-- `RawModeGuard::drop`
abbrev pub drop_guard : Session → Option Termios → Termios → Termios
drop_guard s none now = now
drop_guard s (some original) now = if s.restores then original else now

abbrev pub finish : Session → Text → Option Termios → Termios → List Event → Next → Outcome
unfolding after_watch
finish s socket_path guard now events (continue p) = record {
  end = running;
  termios = now;
  events = events;
}
finish s socket_path guard now events (broken p) = record {
  end = returned;
  termios = drop_guard s guard now;
  events = events ++ after_watch socket_path s.late (broken p);
}
finish s socket_path guard now events (cancelled p) = record {
  end = returned;
  termios = drop_guard s guard now;
  events = events ++ after_watch socket_path s.late (cancelled p);
}

abbrev pub no_pane : Pane
no_pane = record { shown = []; forwarded = []; resizes = 0 }

-- A pane with the pty propagates its size once before the loop.
abbrev pub first_pane : Option ℕ → Pane
first_pane none = no_pane
first_pane (some fd) = record no_pane { resizes = 1 }

-- From the second socket on. `std::process::exit` drops no guard.
abbrev pub monitor : Session → Text → Option ℕ → Option Termios → Termios → List Event → Outcome
unfolding finish watch
monitor s socket_path pty guard now events =
    if s.monitors
    then finish s socket_path guard now (events ++ probe socket_path ∷ [])
        (watch (is_some pty) s.rounds (first_pane pty))
    else record { end = exited; termios = now; events = events ++ exit 1 ∷ [] }

abbrev pub guard_for : Session → Option ℕ → Termios → Option Termios × Termios
unfolding raw_mode
guard_for s none t = (none, t)
guard_for s (some fd) t = raw_mode s t

abbrev pub ask_on_terminal : Session → Text → List Event × Option ℕ
unfolding ask_pty
ask_on_terminal s socket_path = if s.is_terminal then ask_pty s.asking socket_path else ([], none)

abbrev pub with_log : Session → Text → Termios → Outcome
unfolding ask_on_terminal guard_for monitor
with_log s socket_path t =
    let (events, pty) = ask_on_terminal s socket_path in
    let (guard, now) = guard_for s pty t in monitor s socket_path pty guard now events

abbrev pub on_log : Session → Text → Termios → LogWait → Outcome
unfolding with_log
on_log s socket_path t trying = record { end = running; termios = t; events = [] }
on_log s socket_path t open_log = with_log s socket_path t
on_log s socket_path t timed_out = record {
  end = exited;
  termios = t;
  events = complain (codes "Timeout waiting for log file") ∷ exit 1 ∷ [];
}

-- `run`
unfoldable pub run_watch : Session → Text → Termios → Outcome
unfolding wait_for_log on_log
run_watch s socket_path t = on_log s socket_path t (wait_for_log s.attempts)
