-- ===== src/Daemon/Pump/Pane.antt =====
-- When the loop of src/daemon.rs opens a pane with direnv's output.
use direnv_instant.Prelude.{
  ℕ, true, false, Option, none, List, [], ◌∷◌, if◌then◌else◌, ◌%◌, ◌^◌, ◌≡◌, ◌≢◌, ◌≤◌, ◌<◌, ◌⊎◌,
  refl, arith, Any, Bool-cases, inl, inr,
}
use direnv_instant.Mux.Detect.{Multiplexer}
use direnv_instant.Daemon.Pump.{
  bytes, eio, other_error, Select, readable, select_error, quiet, Round, Pump, start, Next,
  continue, return, resume, on_read, on_select, on_quiet, wants_pane, copy_pty_to_logfile,
}
use direnv_instant.Daemon.Pump.Rounds.{round_stopped, round_running}
use direnv_instant.Daemon.Pump.Log.{and_later, received}

-- The loop counts the panes by its flag.
abbrev IsCounted : Pump → Type 0
IsCounted p = p.spawns ≡ (if p.mux_spawned then 1 else 0)

-- A round in which the pty is silent, late enough for a pane.
abbrev pub IsLate : ℕ → Round → Type 0
IsLate mux_delay_ms r =
    (elapsed : ℕ) × (r.select ≡ quiet elapsed) × (mux_delay_ms ≤ elapsed % 2 ^ 64)

received-cons :
    (r : Round) (rs : List Round) {s : Select}
    → r.stop ≡ false
    → r.select ≡ s
    → received (r ∷ rs) ≡ and_later s (received rs)
received-cons r rs run e = rw (run, e)

module _ (mux_delay_ms : ℕ) (multiplexer : Option Multiplexer) where
  on_select-IsCounted :
      (s : Select) (p : Pump) → IsCounted p → IsCounted (on_select mux_delay_ms multiplexer s p).1
  unfolding on_select
  on_select-IsCounted (readable (bytes [] written)) p h = h
  on_select-IsCounted (readable (bytes (c ∷ s) written)) p h = h
  on_select-IsCounted (readable eio) p h = h
  on_select-IsCounted (readable other_error) p h = h
  on_select-IsCounted select_error p h = h
  on_select-IsCounted (quiet elapsed) p h = unfold on_quiet in ground arith

  resume-IsCounted :
      (n : Next × Pump) (rs : List Round)
      → IsCounted n.1
      → ((p : Pump) → IsCounted p → IsCounted (copy_pty_to_logfile mux_delay_ms multiplexer rs p).1)
      → IsCounted (resume n (copy_pty_to_logfile mux_delay_ms multiplexer rs)).1
  resume-IsCounted (continue, p) rs h ih = ih p h
  resume-IsCounted (return done, p) rs h ih = h

  pub copy_pty_to_logfile-IsCounted :
      (rs : List Round) (p : Pump)
      → IsCounted p
      → IsCounted (copy_pty_to_logfile mux_delay_ms multiplexer rs p).1
  unfolding copy_pty_to_logfile
  copy_pty_to_logfile-IsCounted [] p h = h
  copy_pty_to_logfile-IsCounted (r ∷ rs) p h = elim (Bool-cases r.stop) [
    | inl stopped ↦ rw (round_stopped mux_delay_ms multiplexer r p stopped) h
    | inr running ↦ rw (round_running mux_delay_ms multiplexer r p running) (
        resume-IsCounted _ rs (on_select-IsCounted r.select p h) (copy_pty_to_logfile-IsCounted rs))
  ]

  -- Why a pane could be opened: there is a multiplexer, the pty was silent late enough, and direnv had
  -- written something before.
  abbrev Reasons : Pump → List Round → Type 0
  Reasons p rs =
      (multiplexer ≢ none)
      × Any (IsLate mux_delay_ms) rs
      × ((0 < p.total_bytes) ⊎ (received rs ≢ []))

  quiet-Reasons :
      (elapsed : ℕ) (p : Pump)
      → wants_pane mux_delay_ms multiplexer elapsed p ≡ true
      → (multiplexer ≢ none) × (mux_delay_ms ≤ elapsed % 2 ^ 64) × (0 < p.total_bytes)
  unfolding wants_pane
  quiet-Reasons elapsed p h = ground arith

  on_quiet_unwanted :
      (elapsed : ℕ) (p : Pump)
      → wants_pane mux_delay_ms multiplexer elapsed p ≡ false
      → on_quiet mux_delay_ms multiplexer elapsed p ≡ p
  unfolding on_quiet
  on_quiet_unwanted elapsed p h = rw h

  -- One round in front of a stretch for which the reasons are known.
  select-Reasons :
      (r : Round) (rs : List Round) (s : Select) (p : Pump)
      → r.select ≡ s
      → r.stop ≡ false
      → p.mux_spawned ≡ false
      → ((p' : Pump)
          → p'.mux_spawned ≡ false
          → (copy_pty_to_logfile mux_delay_ms multiplexer rs p').1.mux_spawned ≡ true
          → Reasons p' rs)
      → (resume
          (on_select mux_delay_ms multiplexer s p)
          (copy_pty_to_logfile mux_delay_ms multiplexer rs)).1.mux_spawned
        ≡ true
      → Reasons p (r ∷ rs)
  unfolding on_select
  select-Reasons r rs (readable (bytes [] written)) p e run closed ih opened = cc
  select-Reasons r rs (readable (bytes (c ∷ s) written)) p e run closed ih opened =
      let (found, late, had) = ih (on_read (bytes (c ∷ s) written) p).1 closed opened in
      (found, inr late, inr (λ none_received. cc (received-cons r rs run e)))
  select-Reasons r rs (readable eio) p e run closed ih opened = cc
  select-Reasons r rs (readable other_error) p e run closed ih opened = cc
  select-Reasons r rs select_error p e run closed ih opened = cc
  select-Reasons r rs (quiet elapsed) p e run closed ih opened =
      elim (Bool-cases (wants_pane mux_delay_ms multiplexer elapsed p)) [
        | inl wanted ↦
            let (found, late, had) = quiet-Reasons elapsed p wanted in
            (found, inl (elapsed, e, late), inl had)
        | inr unwanted ↦
            let (found, late, had) =
              ih p closed (rw (on_quiet_unwanted elapsed p unwanted) at opened) in
            (found, inr late, still_had had)
      ]
    where
      still_had :
          (0 < p.total_bytes) ⊎ (received rs ≢ []) → (0 < p.total_bytes) ⊎ (received (r ∷ rs) ≢ [])
      still_had (inl had) = inl had
      still_had (inr had) = inr (λ none_received. had (cc (received-cons r rs run e)))

  Reasons-opened :
      (rs : List Round) (p : Pump)
      → p.mux_spawned ≡ false
      → (copy_pty_to_logfile mux_delay_ms multiplexer rs p).1.mux_spawned ≡ true
      → Reasons p rs
  unfolding copy_pty_to_logfile
  Reasons-opened [] p closed opened = cc
  Reasons-opened (r ∷ rs) p closed opened = elim (Bool-cases r.stop) [
    | inl stopped ↦ cc (rw (round_stopped mux_delay_ms multiplexer r p stopped) at opened)
    | inr running ↦
        select-Reasons r rs r.select p refl running closed (Reasons-opened rs)
          (rw (round_running mux_delay_ms multiplexer r p running) at opened)
  ]

  -- At most one pane is opened in a load, whatever the rounds are.
  pub copy_pty_to_logfile-one_pane :
      (rs : List Round) → (copy_pty_to_logfile mux_delay_ms multiplexer rs start).1.spawns ≤ 1
  copy_pty_to_logfile-one_pane rs =
      let counted = copy_pty_to_logfile-IsCounted rs start refl in ground arith

  -- Where a pane is opened, the shell runs in a multiplexer, the pty was silent in some round after
  -- the delay, and direnv had written something.
  pub copy_pty_to_logfile-pane_reasons :
      (rs : List Round)
      → (copy_pty_to_logfile mux_delay_ms multiplexer rs start).1.spawns ≢ 0
      → (multiplexer ≢ none) × Any (IsLate mux_delay_ms) rs × (received rs ≢ [])
  copy_pty_to_logfile-pane_reasons rs some_pane =
      let counted = copy_pty_to_logfile-IsCounted rs start refl in
      let (found, late, had) = Reasons-opened rs start refl (ground arith) in
      (found, late, no_bytes_at_start had)
    where
      no_bytes_at_start : (0 < 0) ⊎ (received rs ≢ []) → received rs ≢ []
      no_bytes_at_start (inl h) = absurd (omega arith)
      no_bytes_at_start (inr h) = h
