-- ===== src/Daemon/Lifetime.antt =====
-- The life of a daemon of src/daemon.rs as its threads interleave: the threads of
-- `handle_socket_commands` change the registry at any time until the process is gone, while
-- `parent_process` goes through its phases. The loop that signals the shells holds the lock of the
-- registry from its first shell to its last, so it is one step.
pub mod Shells
pub mod Race
pub mod Loads
pub mod Starter
pub mod Tests
use direnv_instant.Prelude.{
  Text, ℤ, Bool, true, false, Option, none, some, List, [], ◌∷◌, ◌++◌, ◌≡◌, ◌≢◌,
}
use direnv_instant.Daemon.Registry.{Shared, handle_connection, initial}
use direnv_instant.Daemon.Publish.{wake_shells}
use direnv_instant.Daemon.Publish.Signals.{woken}

-- `published` says whether there is a message or an environment to show, and so do the phases behind
-- it. `ended` is the end of the process, without an answer where the load was cancelled.
pub data Phase : Type 0 where
  copying : Phase
  published : Bool → Phase
  signalled : Bool → Phase
  cancelled : Phase
  ended : Option Bool → Phase

pub record State : Type 0 where
  pub shared : Shared
  pub phase : Phase
  pub heard : List (Option Text)  -- what the connections wrote, the latest first
  pub signals : List ℤ  -- the shells that got SIGUSR1, in order

abbrev pub begin : Bool → ℤ → State
begin is_nushell parent_pid = record {
  shared = initial is_nushell parent_pid;
  phase = copying;
  heard = [];
  signals = [];
}

abbrev pub IsAlive : Phase → Type 0
IsAlive copying = Unit
IsAlive (published shown) = Unit
IsAlive (signalled shown) = Unit
IsAlive cancelled = Unit
IsAlive (ended shown) = ⊥

pub data Step : State → State → Type 0 where
  -- a thread handles a connection
  connect :
      (s : State) (c : Option Text)
      → IsAlive s.phase
      → Step s (record s { shared = (handle_connection c true s.shared).0; heard = c ∷ s.heard })
  -- the copy loop loads a set stop flag
  stop :
      (s : State)
      → s.phase ≡ copying
      → s.shared.should_stop ≡ true
      → Step s (record s { phase = cancelled })
  -- the copy loop ends, and the files are renamed
  publish :
      (s : State) (shown : Bool) → s.phase ≡ copying → Step s (record s { phase = published shown })
  -- the shells are signalled, under the lock
  signal :
      (s : State) (shown : Bool)
      → s.phase ≡ published shown
      → Step s (record s {
        phase = signalled shown;
        signals = woken (wake_shells shown s.shared.notify_pids);
      })
  -- the main thread returns, and the process ends with all its threads
  leave :
      (s : State) (shown : Bool)
      → s.phase ≡ signalled shown
      → Step s (record s { phase = ended (some shown) })
  give_up : (s : State) → s.phase ≡ cancelled → Step s (record s { phase = ended none })

pub data Reach (is_nushell : Bool) (parent_pid : ℤ) : State → Type 0 where
  start : Reach is_nushell parent_pid (begin is_nushell parent_pid)
  next : {s t : State} → Reach is_nushell parent_pid s → Step s t → Reach is_nushell parent_pid t
