-- ===== src/Commands/Watch.antt =====
-- The loop of src/commands/watch.rs: the pane that shows the log of a daemon and forwards its input.
pub mod Ends
pub mod Session
pub mod Tests
use direnv_instant.Prelude.{
  ℕ, Text, Bool, true, false, ◌&&◌, ◌||◌, Option, none, some, List, [], ◌∷◌, ◌++◌, ◌+◌,
  if◌then◌else◌,
}
use direnv_instant.Commands.{Event, send}
use direnv_instant.Daemon.Protocol.{stop_message}

-- `read`: the bytes, none of them at the end of the file, or an error.
abbrev pub Reading : Type 0
Reading = Option Text

pub data Answer : Type 0 where
  eintr : Answer
  failed : Answer
  ready : Option Reading → Option Reading → Answer  -- what stdin and the socket give, if readable

-- What one round of the loop meets.
pub record Round : Type 0 where
  pub interrupted : Bool  -- SIGINT has come before the test of `WATCH_RUNNING`
  pub resized : Bool  -- SIGWINCH has come before the swap of `SIGWINCH_RECEIVED`
  pub select : Answer
  pub rest : List Reading  -- the reads of the log after the daemon has closed the socket
  pub log : Reading  -- the read of the log at the end of the round

-- What has been written to the pane and to the pty, where the writes are taken to succeed, and how
-- often the size was propagated.
pub record Pane : Type 0 where
  pub shown : Text
  pub forwarded : Text
  pub resizes : ℕ

pub data Next : Type 0 where
  continue : Pane → Next  -- the loop goes on
  broken : Pane → Next  -- by `break`
  cancelled : Pane → Next  -- `WATCH_RUNNING` is false

abbrev pub show : Text → Pane → Pane
show s p = record p { shown = p.shown ++ s }

-- `while let Ok(n) = read(…)`, up to the read that gives nothing.
abbrev pub drain : List Reading → Text
drain [] = []
drain (none ∷ rs) = []
drain (some [] ∷ rs) = []
drain (some (c ∷ s) ∷ rs) = (c ∷ s) ++ drain rs

abbrev pub text_of : Reading → Text
text_of none = []
text_of (some s) = s

-- The daemon's socket, and the log at the end of the round.
unfoldable pub on_socket : Round → Option Reading → Pane → Next
on_socket r none p = continue (show (text_of r.log) p)
on_socket r (some none) p = broken p
on_socket r (some (some [])) p = broken (show (drain r.rest) p)
on_socket r (some (some (c ∷ s))) p = continue (show (text_of r.log) p)

-- The input, which is watched only where the pane has the pty.
unfoldable pub on_stdin : Round → Option Reading → Option Reading → Pane → Next
unfolding on_socket
on_stdin r none socket p = on_socket r socket p
on_stdin r (some none) socket p = on_socket r socket p
on_stdin r (some (some [])) socket p = broken p
on_stdin r (some (some (c ∷ s))) socket p =
    on_socket r socket (record p { forwarded = p.forwarded ++ (c ∷ s) })

abbrev pub propagate : Bool → Round → Pane → Pane
propagate has_pty r p = if r.resized && has_pty then record p { resizes = p.resizes + 1 } else p

unfoldable pub on_select : Bool → Round → Answer → Pane → Next
unfolding on_stdin on_socket
on_select has_pty r eintr p = continue p
on_select has_pty r failed p = broken p
on_select has_pty r (ready stdin socket) p =
    if has_pty then on_stdin r stdin socket p else on_socket r socket p

unfoldable pub watch_round : Bool → Round → Pane → Next
unfolding on_select
watch_round has_pty r p =
    if r.interrupted then cancelled p else on_select has_pty r r.select (propagate has_pty r p)

-- The rounds until the loop ends, and `continue` where it is still running behind the last of them.
unfoldable pub watch : Bool → List Round → Pane → Next
unfolding watch_round
watch has_pty [] p = continue p
watch has_pty (r ∷ rs) p = elim (watch_round has_pty r p) [
  | continue p' ↦ watch has_pty rs p'
  | broken p' ↦ broken p'
  | cancelled p' ↦ cancelled p'
]

-- Behind the loop `WATCH_RUNNING` is read once more; `late` says whether SIGINT has come since.
unfoldable pub after_watch : Text → Bool → Next → List Event
unfolding stop_message
after_watch socket_path late (continue p) = []
after_watch socket_path late (broken p) = if late then send socket_path stop_message ∷ [] else []
after_watch socket_path late (cancelled p) = send socket_path stop_message ∷ []
