-- ===== src/Daemon/Pump/Log.antt =====
-- What the loop of src/daemon.rs leaves in the log.
use direnv_instant.Prelude.{
  ℕ, Text, Option, List, [], ◌∷◌, ◌++◌, if◌then◌else◌, length, ◌≡◌, ◌≤◌, sym, arith, append_assoc,
  append-nil, All, take-eq_of_le, ◌∙◌, Bool-cases, inl, inr,
}
use direnv_instant.Mux.Detect.{Multiplexer}
use direnv_instant.Daemon.Pump.{
  bytes, eio, other_error, Select, readable, select_error, quiet, Round, Pump, resume, on_select,
  on_quiet, copy_pty_to_logfile,
}
use direnv_instant.Daemon.Pump.Rounds.{round_stopped, round_running}

-- What the pty gives in a round, in front of what it gives later; nothing comes behind an end.
abbrev pub and_later : Select → Text → Text
and_later (readable (bytes [] written)) later = []
and_later (readable (bytes (c ∷ s) written)) later = (c ∷ s) ++ later
and_later (readable eio) later = []
and_later (readable other_error) later = []
and_later select_error later = []
and_later (quiet elapsed) later = later

-- All that direnv writes to the pty until the loop ends.
abbrev pub received : List Round → Text
received [] = []
received (r ∷ rs) = if r.stop then [] else and_later r.select (received rs)

-- `write_all` writes everything that was read.
abbrev pub IsWritten : Select → Type 0
IsWritten (readable (bytes s written)) = length s ≤ written
IsWritten (readable eio) = Unit
IsWritten (readable other_error) = Unit
IsWritten select_error = Unit
IsWritten (quiet elapsed) = Unit

on_quiet-log :
    (mux_delay_ms : ℕ) (multiplexer : Option Multiplexer) (elapsed : ℕ) (p : Pump)
    → (on_quiet mux_delay_ms multiplexer elapsed p).log ≡ p.log
unfolding on_quiet
on_quiet-log mux_delay_ms multiplexer elapsed p = ground arith

module _ (mux_delay_ms : ℕ) (multiplexer : Option Multiplexer) where
  log-on_select :
      (s : Select) (rs : List Round) (p : Pump)
      → IsWritten s
      → ((p' : Pump)
          → (copy_pty_to_logfile mux_delay_ms multiplexer rs p').1.log ≡ p'.log ++ received rs)
      → (resume
          (on_select mux_delay_ms multiplexer s p)
          (copy_pty_to_logfile mux_delay_ms multiplexer rs)).1.log
        ≡ p.log ++ and_later s (received rs)
  unfolding on_select
  log-on_select (readable (bytes [] written)) rs p h ih = sym (append-nil p.log)
  log-on_select (readable (bytes (c ∷ s) written)) rs p h ih =
      ih _ ∙ rw (take-eq_of_le written (c ∷ s) h) (append_assoc p.log (c ∷ s) (received rs))
  log-on_select (readable eio) rs p h ih = sym (append-nil p.log)
  log-on_select (readable other_error) rs p h ih = sym (append-nil p.log)
  log-on_select select_error rs p h ih = sym (append-nil p.log)
  log-on_select (quiet elapsed) rs p h ih =
      ih _ ∙ rw (on_quiet-log mux_delay_ms multiplexer elapsed p)

  -- The log is exactly what direnv wrote to the pty: as long as the writes succeed, nothing is lost,
  -- repeated or reordered between the start of the loop and its end, whatever the rounds are.
  pub log-copy_pty_to_logfile :
      (rs : List Round) (p : Pump)
      → All (λ r. IsWritten r.select) rs
      → (copy_pty_to_logfile mux_delay_ms multiplexer rs p).1.log ≡ p.log ++ received rs
  unfolding copy_pty_to_logfile
  log-copy_pty_to_logfile [] p h = sym (append-nil p.log)
  log-copy_pty_to_logfile (r ∷ rs) p (h, hs) = elim (Bool-cases r.stop) [
    | inl stopped ↦
        rw (round_stopped mux_delay_ms multiplexer r p stopped, stopped) (sym (append-nil p.log))
    | inr running ↦
        rw (round_running mux_delay_ms multiplexer r p running, running)
          (log-on_select r.select rs p h λ p'. log-copy_pty_to_logfile rs p' hs)
  ]
