-- ===== src/Daemon/Pump/Busy.antt =====
-- Which loads of src/daemon.rs get their pane, and which do not.
use direnv_instant.Prelude.{
  ℕ, Text, true, false, Option, none, List, [], ◌∷◌, ◌++◌, length, ◌+◌, ◌%◌, ◌^◌, ◌≡◌, ◌≢◌, ◌≤◌,
  ◌<◌, refl, arith, All, Any, ◌∙◌, Bool-cases, inl, inr, length-append,
}
use direnv_instant.Mux.Detect.{Multiplexer}
use direnv_instant.Daemon.Pump.{
  Read, bytes, eio, other_error, Select, readable, select_error, quiet, Round, Pump, start, Next,
  continue, return, resume, on_read, on_select, on_quiet, copy_pty_to_logfile,
}
use direnv_instant.Daemon.Pump.Rounds.{round_stopped, round_running, copy_pty_to_logfile-append}
use direnv_instant.Daemon.Pump.Log.{and_later, received}
use direnv_instant.Daemon.Pump.Pane.{
  IsLate, copy_pty_to_logfile-IsCounted, copy_pty_to_logfile-pane_reasons,
}

-- The pty has something to read.
abbrev pub IsBusy : Round → Type 0
IsBusy r = (x : Read) × (r.select ≡ readable x)

not_late_and_busy :
    (mux_delay_ms : ℕ) (rs : List Round) → Any (IsLate mux_delay_ms) rs → All IsBusy rs → ⊥
not_late_and_busy mux_delay_ms [] late busy = late
not_late_and_busy mux_delay_ms (r ∷ rs) (inl (elapsed, e, _)) ((x, k), busy) = cc
not_late_and_busy mux_delay_ms (r ∷ rs) (inr late) (k, busy) =
    not_late_and_busy mux_delay_ms rs late busy

zero_of_not_positive : (n : ℕ) → ¬ (n ≢ 0) → n ≡ 0
zero_of_not_positive n h = ground arith

on_quiet-total :
    (mux_delay_ms : ℕ) (multiplexer : Option Multiplexer) (elapsed : ℕ) (p : Pump)
    → (on_quiet mux_delay_ms multiplexer elapsed p).total_bytes ≡ p.total_bytes
unfolding on_quiet
on_quiet-total mux_delay_ms multiplexer elapsed p = ground arith

module _ (mux_delay_ms : ℕ) (multiplexer : Option Multiplexer) where
  -- A direnv that writes in every interval gets no pane, however long it takes: the delay is looked at
  -- only in a round in which the pty is silent.
  pub copy_pty_to_logfile-busy :
      (rs : List Round)
      → All IsBusy rs
      → (copy_pty_to_logfile mux_delay_ms multiplexer rs start).1.spawns ≡ 0
  copy_pty_to_logfile-busy rs busy = zero_of_not_positive _ λ some_pane.
      not_late_and_busy mux_delay_ms rs
        (copy_pty_to_logfile-pane_reasons mux_delay_ms multiplexer rs some_pane).1 busy

  on_select-total :
      (s : Select) (rs : List Round) (p : Pump) (n : ℕ)
      → p.total_bytes ≡ n % 2 ^ 64
      → (resume
          (on_select mux_delay_ms multiplexer s p)
          (copy_pty_to_logfile mux_delay_ms multiplexer rs)).0
        ≡ continue
      → ((p' : Pump) (n' : ℕ)
          → p'.total_bytes ≡ n' % 2 ^ 64
          → (copy_pty_to_logfile mux_delay_ms multiplexer rs p').0 ≡ continue
          → (copy_pty_to_logfile mux_delay_ms multiplexer rs p').1.total_bytes
            ≡ (n' + length (received rs)) % 2 ^ 64)
      → (resume
          (on_select mux_delay_ms multiplexer s p)
          (copy_pty_to_logfile mux_delay_ms multiplexer rs)).1.total_bytes
        ≡ (n + length (and_later s (received rs))) % 2 ^ 64
  unfolding on_select
  on_select-total (readable (bytes [] written)) rs p n e going ih = cc
  on_select-total (readable (bytes (c ∷ s) written)) rs p n e going ih =
      ih (on_read (bytes (c ∷ s) written) p).1 (n + length (c ∷ s)) (omega arith) going
      ∙ rw (length-append (c ∷ s) (received rs)) (omega arith)
  on_select-total (readable eio) rs p n e going ih = cc
  on_select-total (readable other_error) rs p n e going ih = cc
  on_select-total select_error rs p n e going ih = cc
  on_select-total (quiet elapsed) rs p n e going ih =
      ih (on_quiet mux_delay_ms multiplexer elapsed p) n
        (rw (on_quiet-total mux_delay_ms multiplexer elapsed p) e) going

  -- A loop that is still running has counted what it received.
  copy_pty_to_logfile-total :
      (rs : List Round) (p : Pump) (n : ℕ)
      → p.total_bytes ≡ n % 2 ^ 64
      → (copy_pty_to_logfile mux_delay_ms multiplexer rs p).0 ≡ continue
      → (copy_pty_to_logfile mux_delay_ms multiplexer rs p).1.total_bytes
        ≡ (n + length (received rs)) % 2 ^ 64
  unfolding copy_pty_to_logfile
  copy_pty_to_logfile-total [] p n e going = e ∙ omega arith
  copy_pty_to_logfile-total (r ∷ rs) p n e going = elim (Bool-cases r.stop) [
    | inl stopped ↦ cc (rw (round_stopped mux_delay_ms multiplexer r p stopped) at going)
    | inr running ↦
        rw (round_running mux_delay_ms multiplexer r p running, running)
          (on_select-total r.select rs p n e
            (rw (round_running mux_delay_ms multiplexer r p running) at going)
            (copy_pty_to_logfile-total rs))
  ]

  on_select-spawned :
      (s : Select) (p : Pump)
      → p.mux_spawned ≡ true
      → (on_select mux_delay_ms multiplexer s p).1.mux_spawned ≡ true
  unfolding on_select
  on_select-spawned (readable (bytes [] written)) p h = h
  on_select-spawned (readable (bytes (c ∷ s) written)) p h = h
  on_select-spawned (readable eio) p h = h
  on_select-spawned (readable other_error) p h = h
  on_select-spawned select_error p h = h
  on_select-spawned (quiet elapsed) p h = unfold on_quiet in ground arith

  resume-spawned :
      (n : Next × Pump) (rs : List Round)
      → n.1.mux_spawned ≡ true
      → ((p : Pump)
          → p.mux_spawned ≡ true
          → (copy_pty_to_logfile mux_delay_ms multiplexer rs p).1.mux_spawned ≡ true)
      → (resume n (copy_pty_to_logfile mux_delay_ms multiplexer rs)).1.mux_spawned ≡ true
  resume-spawned (continue, p) rs h ih = ih p h
  resume-spawned (return done, p) rs h ih = h

  copy_pty_to_logfile-spawned :
      (rs : List Round) (p : Pump)
      → p.mux_spawned ≡ true
      → (copy_pty_to_logfile mux_delay_ms multiplexer rs p).1.mux_spawned ≡ true
  unfolding copy_pty_to_logfile
  copy_pty_to_logfile-spawned [] p h = h
  copy_pty_to_logfile-spawned (r ∷ rs) p h = elim (Bool-cases r.stop) [
    | inl stopped ↦ rw (round_stopped mux_delay_ms multiplexer r p stopped) h
    | inr running ↦
        rw (round_running mux_delay_ms multiplexer r p running)
          (resume-spawned _ rs (on_select-spawned r.select p h) (copy_pty_to_logfile-spawned rs))
  ]

  on_quiet-opens :
      (elapsed : ℕ) (p : Pump)
      → mux_delay_ms ≤ elapsed % 2 ^ 64
      → multiplexer ≢ none
      → 0 < p.total_bytes
      → (on_quiet mux_delay_ms multiplexer elapsed p).mux_spawned ≡ true
  unfolding on_quiet
  on_quiet-opens elapsed p late found had = ground arith

  -- When something was received and the copy loop is still running, a silent round after the delay
  -- makes sure that the loop asks the multiplexer for a pane, exactly once in all its rounds and
  -- whether or not the multiplexer succeeds, if there is a multiplexer and fewer than 2^64 bytes
  -- were received.
  pub copy_pty_to_logfile-opens :
      (before after : List Round) (r : Round) (elapsed : ℕ)
      → (copy_pty_to_logfile mux_delay_ms multiplexer before start).0 ≡ continue
      → received before ≢ []
      → length (received before) < 2 ^ 64
      → r.stop ≡ false
      → r.select ≡ quiet elapsed
      → mux_delay_ms ≤ elapsed % 2 ^ 64
      → multiplexer ≢ none
      → (copy_pty_to_logfile mux_delay_ms multiplexer (before ++ r ∷ after) start).1.spawns ≡ 1
  copy_pty_to_logfile-opens before after r elapsed going had small run silent late found =
      let counted =
        copy_pty_to_logfile-IsCounted mux_delay_ms multiplexer (before ++ r ∷ after) start refl in
      let opened : (copy_pty_to_logfile mux_delay_ms multiplexer (before ++ r ∷ after)
            start).1.mux_spawned
          ≡ true =
        rw (copy_pty_to_logfile-append mux_delay_ms multiplexer before (r ∷ after) start) (
          go (copy_pty_to_logfile mux_delay_ms multiplexer before start) going
            (copy_pty_to_logfile-total before start 0 refl going)) in
      ground arith
    where
      length-pos : (s : Text) → s ≢ [] → 0 < length s
      length-pos [] h = absurd (h refl)
      length-pos (c ∷ s) h = omega arith

      go :
          (n : Next × Pump)
          → n.0 ≡ continue
          → n.1.total_bytes ≡ (0 + length (received before)) % 2 ^ 64
          → (resume n (copy_pty_to_logfile mux_delay_ms multiplexer (r ∷ after))).1.mux_spawned
            ≡ true
      go (continue, p) e total =
          unfold copy_pty_to_logfile on_select in
          rw (round_running mux_delay_ms multiplexer r p run, silent)
            (copy_pty_to_logfile-spawned after _ (
              on_quiet-opens elapsed p late found
                (omega (arith, length-pos (received before) had))))
      go (return done, p) e total = cc
