-- ===== src/Daemon/Pump/Rounds.antt =====
-- The loop of src/daemon.rs one round, and one stretch of rounds, at a time.
use direnv_instant.Prelude.{ℕ, true, false, Option, List, [], ◌∷◌, ◌++◌, ◌≡◌, refl}
use direnv_instant.Mux.Detect.{Multiplexer}
use direnv_instant.Daemon.Pump.{
  Round, Pump, Next, continue, return, resume, on_select, round, copy_pty_to_logfile,
}

module _ (mux_delay_ms : ℕ) (multiplexer : Option Multiplexer) where
  pub round_stopped :
      (r : Round) (p : Pump)
      → r.stop ≡ true
      → round mux_delay_ms multiplexer r p ≡ (return false, p)
  unfolding round
  round_stopped r p h = rw h

  pub round_running :
      (r : Round) (p : Pump)
      → r.stop ≡ false
      → round mux_delay_ms multiplexer r p ≡ on_select mux_delay_ms multiplexer r.select p
  unfolding round
  round_running r p h = rw h

  pub copy_pty_to_logfile-cons :
      (r : Round) (rs : List Round) (p : Pump)
      → copy_pty_to_logfile mux_delay_ms multiplexer (r ∷ rs) p
        ≡ resume
            (round mux_delay_ms multiplexer r p)
            (copy_pty_to_logfile mux_delay_ms multiplexer rs)
  unfolding copy_pty_to_logfile
  copy_pty_to_logfile-cons r rs p = refl

  resume-append :
      (n : Next × Pump) (rs rest : List Round)
      → ((p : Pump)
          → copy_pty_to_logfile mux_delay_ms multiplexer (rs ++ rest) p
            ≡ resume
                (copy_pty_to_logfile mux_delay_ms multiplexer rs p)
                (copy_pty_to_logfile mux_delay_ms multiplexer rest))
      → resume n (copy_pty_to_logfile mux_delay_ms multiplexer (rs ++ rest))
        ≡ resume
            (resume n (copy_pty_to_logfile mux_delay_ms multiplexer rs))
            (copy_pty_to_logfile mux_delay_ms multiplexer rest)
  resume-append (continue, p) rs rest ih = ih p
  resume-append (return done, p) rs rest ih = refl

  -- A stretch of rounds in front of others.
  pub copy_pty_to_logfile-append :
      (rs rest : List Round) (p : Pump)
      → copy_pty_to_logfile mux_delay_ms multiplexer (rs ++ rest) p
        ≡ resume
            (copy_pty_to_logfile mux_delay_ms multiplexer rs p)
            (copy_pty_to_logfile mux_delay_ms multiplexer rest)
  unfolding copy_pty_to_logfile
  copy_pty_to_logfile-append [] rest p = refl
  copy_pty_to_logfile-append (r ∷ rs) rest p =
      resume-append (round mux_delay_ms multiplexer r p) rs rest
        (copy_pty_to_logfile-append rs rest)
