-- ===== src/Daemon/Pump/Stop.antt =====
-- How the loop of src/daemon.rs ends.
use direnv_instant.Prelude.{
  ℕ, true, false, Option, List, [], ◌∷◌, ◌++◌, ◌≡◌, ◌≢◌, inl, inr, Any, Bool-cases,
}
use direnv_instant.Mux.Detect.{Multiplexer}
use direnv_instant.Daemon.Pump.{
  bytes, eio, other_error, Select, readable, select_error, quiet, Round, Pump, Next, continue,
  return, resume, on_select, copy_pty_to_logfile,
}
use direnv_instant.Daemon.Pump.Rounds.{round_stopped, round_running, copy_pty_to_logfile-append}

module _ (mux_delay_ms : ℕ) (multiplexer : Option Multiplexer) where
  -- A stop request takes effect in the very next round: a loop that is still running when it loads a
  -- set flag returns `false` at once, and reads, writes and opens nothing more.
  pub copy_pty_to_logfile-stop :
      (before after : List Round) (r : Round) (p : Pump)
      → (copy_pty_to_logfile mux_delay_ms multiplexer before p).0 ≡ continue
      → r.stop ≡ true
      → copy_pty_to_logfile mux_delay_ms multiplexer (before ++ r ∷ after) p
        ≡ (return false, (copy_pty_to_logfile mux_delay_ms multiplexer before p).1)
  copy_pty_to_logfile-stop before after r p running stopped =
      rw (copy_pty_to_logfile-append mux_delay_ms multiplexer before (r ∷ after) p)
        (go (copy_pty_to_logfile mux_delay_ms multiplexer before p) running)
    where
      go :
          (n : Next × Pump)
          → n.0 ≡ continue
          → resume n (copy_pty_to_logfile mux_delay_ms multiplexer (r ∷ after))
            ≡ (return false, n.1)
      go (continue, p') e =
          unfold copy_pty_to_logfile in rw (round_stopped mux_delay_ms multiplexer r p' stopped)
      go (return done, p') e = cc

  on_select-ne_cancel :
      (s : Select) (p : Pump) → (on_select mux_delay_ms multiplexer s p).0 ≢ return false
  unfolding on_select
  on_select-ne_cancel (readable (bytes [] written)) p e = cc
  on_select-ne_cancel (readable (bytes (c ∷ s) written)) p e = cc
  on_select-ne_cancel (readable eio) p e = cc
  on_select-ne_cancel (readable other_error) p e = cc
  on_select-ne_cancel select_error p e = cc
  on_select-ne_cancel (quiet elapsed) p e = cc

  cancel-resume :
      (n : Next × Pump) (rs : List Round)
      → n.0 ≢ return false
      → (resume n (copy_pty_to_logfile mux_delay_ms multiplexer rs)).0 ≡ return false
      → (copy_pty_to_logfile mux_delay_ms multiplexer rs n.1).0 ≡ return false
  cancel-resume (continue, p) rs h e = e
  cancel-resume (return done, p) rs h e = absurd (h e)

  -- Nothing but a stop request cancels: a loop that returned `false` has loaded a set flag in one of its
  -- rounds. The end of the output, an error of the pty and an error of `select` all count as an end.
  pub copy_pty_to_logfile_cancelled :
      (rs : List Round) (p : Pump)
      → (copy_pty_to_logfile mux_delay_ms multiplexer rs p).0 ≡ return false
      → Any (λ r. r.stop ≡ true) rs
  unfolding copy_pty_to_logfile
  copy_pty_to_logfile_cancelled [] p e = cc
  copy_pty_to_logfile_cancelled (r ∷ rs) p e = elim (Bool-cases r.stop) [
    | inl stopped ↦ inl stopped
    | inr running ↦ inr (
        copy_pty_to_logfile_cancelled rs (on_select mux_delay_ms multiplexer r.select p).1 (
          cancel-resume (on_select mux_delay_ms multiplexer r.select p) rs
            (on_select-ne_cancel r.select p)
            (rw (round_running mux_delay_ms multiplexer r p running) at e)))
  ]
