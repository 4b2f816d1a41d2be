-- ===== src/Daemon/Pump.antt =====
-- `copy_pty_to_logfile` of src/daemon.rs: the loop that copies direnv's output from the pty to the log
-- and opens a pane when direnv is slow. The list of rounds is what the loop meets: in each round the
-- stop flag that it loads, and what `select` and `read` answer.
pub mod Rounds
pub mod Log
pub mod Pane
pub mod Busy
pub mod Stop
pub mod Tests
use direnv_instant.Prelude.{
  ℕ, suc, Text, Bool, true, false, not, ◌&&◌, Option, none, some, is_some, List, [], ◌∷◌, ◌++◌,
  if◌then◌else◌, ltb, leb, length, take, ◌+◌, ◌%◌, ◌^◌, ◌≡◌,
}
use direnv_instant.Mux.Detect.{Multiplexer}

-- What `read` on the master answers: at most 8192 bytes, of which `write_all` writes the first
-- `written` to the log (all of them, unless it fails), or an error.
pub data Read : Type 0 where
  bytes : Text → ℕ → Read
  eio : Read
  other_error : Read

-- What `select` answers: the master is readable, an error, or neither, after which the clock shows
-- the milliseconds since the loop began.
pub data Select : Type 0 where
  readable : Read → Select
  select_error : Select
  quiet : ℕ → Select

pub record Round : Type 0 where
  pub stop : Bool
  pub select : Select

-- The variables of the loop, the contents of the log, and how often `multiplexer.spawn` was called.
pub record Pump : Type 0 where
  pub total_bytes : ℕ
  pub mux_spawned : Bool
  pub log : Text
  pub spawns : ℕ

abbrev pub start : Pump
start = record { total_bytes = 0; mux_spawned = false; log = []; spawns = 0 }

-- The loop goes on, or returns.
pub data Next : Type 0 where
  continue : Next
  return : Bool → Next

-- The next round, unless the loop has returned.
abbrev pub resume : Next × Pump → (Pump → Next × Pump) → Next × Pump
resume (continue, p) loop = loop p
resume (return done, p) loop = (return done, p)

-- `total_bytes` is a `usize`, and wraps in a release build.
unfoldable pub on_read : Read → Pump → Next × Pump
on_read (bytes [] written) p = (return true, p)
on_read (bytes (c ∷ s) written) p = (
  continue,
  record p {
    total_bytes = (p.total_bytes + length (c ∷ s)) % 2 ^ 64;
    log = p.log ++ take written (c ∷ s);
  },
)
on_read eio p = (return true, p)
on_read other_error p = (return true, p)

module _ (mux_delay_ms : ℕ) (multiplexer : Option Multiplexer) where
  -- The test for the pane; the milliseconds are cut to a `u64`.
  unfoldable pub wants_pane : ℕ → Pump → Bool
  wants_pane elapsed p =
      not p.mux_spawned
      && leb mux_delay_ms (elapsed % 2 ^ 64)
      && ltb 0 p.total_bytes
      && is_some multiplexer

  unfoldable pub on_quiet : ℕ → Pump → Pump
  unfolding wants_pane
  on_quiet elapsed p =
      if wants_pane elapsed p then record p { mux_spawned = true; spawns = suc p.spawns } else p

  unfoldable pub on_select : Select → Pump → Next × Pump
  unfolding on_read on_quiet
  on_select (readable r) p = on_read r p
  on_select select_error p = (return true, p)
  on_select (quiet elapsed) p = (continue, on_quiet elapsed p)

  unfoldable pub round : Round → Pump → Next × Pump
  unfolding on_select
  round r p = if r.stop then (return false, p) else on_select r.select p

  -- The loop; `continue` at the end of the list means that it is still running.
  unfoldable pub copy_pty_to_logfile : List Round → Pump → Next × Pump
  unfolding round
  copy_pty_to_logfile [] p = (continue, p)
  copy_pty_to_logfile (r ∷ rs) p = resume (round r p) (copy_pty_to_logfile rs)
