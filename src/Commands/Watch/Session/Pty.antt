-- ===== src/Commands/Watch/Session/Pty.antt =====
-- The pty that a watch of src/commands/watch.rs gets from the daemon of src/daemon.rs.
use direnv_instant.Prelude.{
  ℕ, Text, Bool, true, false, Option, none, some, List, [], ◌∷◌, ◌≡◌, refl, ap, ◌∙◌, if◌then◌else◌,
}
use direnv_instant.Daemon.Protocol.{watch_message}
use direnv_instant.Daemon.Registry.{
  Shared, Reply, master, unavailable, lost, send_master, handle_connection,
}
use direnv_instant.Commands.Watch.Session.{
  ControlMessage, scm_rights, readable, Asking, received_fd, ask_pty,
}

-- What `recvmsg` finds behind a reply; `copy` is the number of the kernel's copy of a descriptor.
pub record Delivers (copy : ℕ → ℕ) (deliver : Reply → List ControlMessage) : Type 0 where
  pub with_master : (fd : ℕ) → deliver (master fd) ≡ scm_rights (copy fd ∷ []) ∷ []
  pub with_unavailable : deliver unavailable ≡ []
  pub with_lost : deliver lost ≡ []

abbrev pub copied : (ℕ → ℕ) → Bool → Option ℕ → Option ℕ
copied copy sent none = none
copied copy sent (some fd) = if sent then some (copy fd) else none

-- A request that reaches the daemon, with its reply.
abbrev pub answered : List ControlMessage → Asking
answered messages = record {
  connected = true;
  written = true;
  selected = readable;
  received = some messages;
}

module _ (copy : ℕ → ℕ) (deliver : Reply → List ControlMessage) (d : Delivers copy deliver) where
  received_fd-send_master :
      (sent : Bool) (pty : Option ℕ)
      → received_fd (deliver (send_master sent pty)) ≡ copied copy sent pty
  unfolding received_fd send_master
  received_fd-send_master true none = rw d.with_unavailable refl
  received_fd-send_master false none = rw d.with_lost refl
  received_fd-send_master true (some fd) = rw (d.with_master fd) refl
  received_fd-send_master false (some fd) = rw d.with_lost refl

  watch_lem :
      (sent : Bool) (sh : Shared)
      → handle_connection (some watch_message) sent sh ≡ (sh, send_master sent sh.pty_master)
  unfolding handle_connection watch_message
  watch_lem sent sh = refl

  ask_pty-answered :
      (messages : List ControlMessage) (path : Text)
      → (ask_pty (answered messages) path).1 ≡ received_fd messages
  unfolding ask_pty
  ask_pty-answered messages path = refl

  -- A watch whose request reaches the daemon gets a copy of the pty that the daemon has stored, and
  -- none if there is no pty yet or the reply is lost; the daemon's state stays as it is.
  pub ask_pty-handle_connection :
      (sent : Bool) (sh : Shared) (path : Text)
      → let r = handle_connection (some watch_message) sent sh in
        ((ask_pty (answered (deliver r.1)) path).1 ≡ copied copy sent sh.pty_master) × (r.0 ≡ sh)
  ask_pty-handle_connection sent sh path = (
    ask_pty-answered (deliver (handle_connection (some watch_message) sent sh).1) path
        ∙ ap (λ r. received_fd (deliver r.1)) (watch_lem sent sh)
        ∙ received_fd-send_master sent sh.pty_master,
    ap (λ r. r.0) (watch_lem sent sh),
  )
