-- ===== src/Daemon/Lifetime/Loads.antt =====
-- The loads of src/daemon.rs, with their connections one after the other, and the interleavings of a
-- daemon.
use direnv_instant.Prelude.{
  ℕ, Text, ℤ, Bool, true, false, not, ◌||◌, Option, none, some, List, [], ◌∷◌, ◌≡◌, refl, sym, ap,
  ◌∙◌, All,
}
use direnv_instant.Daemon.Files.{Fs}
use direnv_instant.Daemon.Context.{DaemonContext}
use direnv_instant.Daemon.Registry.{initial, handle_connection, serve}
use direnv_instant.Daemon.Pump.Log.{received, IsWritten}
use direnv_instant.Daemon.Publish.{Load, wake_shells, is_nushell, run_load}
use direnv_instant.Daemon.Publish.Stages.{IsDistinct, Runs}
use direnv_instant.Daemon.Publish.Signals.{
  woken, woken-wake_shells, is_empty_text, exports_something, run_load-woken,
  run_load-cancelled_wakes_none,
}
use direnv_instant.Daemon.Lifetime.{copying, ended, State, begin, IsAlive, Step, Reach}

-- The state behind connections that come while the copy loop runs.
abbrev hear : List (Option Text) → State → State
unfolding handle_connection
hear [] s = s
hear (c ∷ cs) s =
    hear cs (record s { shared = (handle_connection c true s.shared).0; heard = c ∷ s.heard })

hear-phase : (cs : List (Option Text)) (s : State) → (hear cs s).phase ≡ s.phase
unfolding hear
hear-phase [] s = refl
hear-phase (c ∷ cs) s = hear-phase cs _

hear-signals : (cs : List (Option Text)) (s : State) → (hear cs s).signals ≡ s.signals
unfolding hear
hear-signals [] s = refl
hear-signals (c ∷ cs) s = hear-signals cs _

hear-serve : (cs : List (Option Text)) (s : State) → (hear cs s).shared ≡ serve cs s.shared
unfolding hear serve
hear-serve [] s = refl
hear-serve (c ∷ cs) s = hear-serve cs _

hear-Reach :
    {n : Bool} {p : ℤ} (cs : List (Option Text)) (s : State)
    → IsAlive s.phase
    → Reach n p s
    → Reach n p (hear cs s)
unfolding hear
hear-Reach [] s alive r = r
hear-Reach (c ∷ cs) s alive r = hear-Reach cs _ alive (Reach.next r (Step.connect s c alive))

-- Whether a load leaves anything to show.
abbrev pub shows : Load → Bool
shows l = not (is_empty_text (received l.rounds)) || exports_something l.exported

module _ (n : Bool) (p : ℤ) (cs : List (Option Text)) where
  abbrev heard : State
  unfolding hear
  heard = hear cs (begin n p)

  heard-Reach : Reach n p heard
  unfolding heard
  heard-Reach = hear-Reach cs (begin n p) tt Reach.start

  heard-copying : heard.phase ≡ copying
  unfolding heard
  heard-copying = hear-phase cs (begin n p)

  finished :
      (shown : Bool)
      → (s : State) × Reach n p s
        × (s.phase ≡ ended (some shown))
        × (s.shared ≡ serve cs (initial n p))
        × (s.signals ≡ woken (wake_shells shown (serve cs (initial n p)).notify_pids))
  unfolding heard
  finished shown = (
    _,
    Reach.next
        (Reach.next (Reach.next heard-Reach (Step.publish heard shown heard-copying))
          (Step.signal _ shown refl))
        (Step.leave _ shown refl),
    refl,
    hear-serve cs (begin n p),
    ap (λ sh. woken (wake_shells shown sh.notify_pids)) (hear-serve cs (begin n p)),
  )

  given_up :
      (serve cs (initial n p)).should_stop ≡ true
      → (s : State) × Reach n p s
        × (s.phase ≡ ended none)
        × (s.shared ≡ serve cs (initial n p))
        × (s.signals ≡ [])
  unfolding heard
  given_up set = (
    _,
    Reach.next
        (Reach.next heard-Reach (
          Step.stop heard heard-copying
            (ap (λ sh. sh.should_stop) (hear-serve cs (begin n p)) ∙ set)))
        (Step.give_up _ refl),
    refl,
    hear-serve cs (begin n p),
    hear-signals cs (begin n p),
  )

-- The end of the process behind a load.
abbrev pub end_of : Bool → Load → Option Bool
end_of true l = some (shows l)
end_of false l = none

-- A load that ran to its end, or was cancelled with the stop flag set by its connections, is one of
-- the daemon's interleavings, provided that all writes to the log succeed, the six files are
-- different paths and the first temporary file was created empty: there is a reachable end of the
-- process with the load's registry and exactly the signals of the load, and a load that ran to its
-- end has something to show exactly when direnv wrote or exported anything.
pub run_load-Reach :
    (mux_delay_ms : ℕ) (ctx : DaemonContext) (d : IsDistinct ctx) (l : Load) (fs : Fs) (b : Bool)
    → Runs mux_delay_ms ctx l b
    → (b ≡ false
        → (serve l.connections (initial (is_nushell ctx.shell) ctx.parent_pid)).should_stop ≡ true)
    → fs ctx.temp_file ≡ some []
    → All (λ r. IsWritten r.select) l.rounds
    → (s : State) × Reach (is_nushell ctx.shell) ctx.parent_pid s
      × (s.phase ≡ ended (end_of b l))
      × (s.shared ≡ serve l.connections (initial (is_nushell ctx.shell) ctx.parent_pid))
      × (s.signals ≡ woken (run_load mux_delay_ms ctx l fs).effects)
run_load-Reach mux_delay_ms ctx d l fs true r set made written =
    let (s, reach, phase, shared, signals) =
      finished (is_nushell ctx.shell) ctx.parent_pid l.connections (shows l) in
    (
      s,
      reach,
      phase,
      shared,
      signals
          ∙ woken-wake_shells (shows l) _
          ∙ sym (run_load-woken mux_delay_ms ctx d l fs r made written),
    )
run_load-Reach mux_delay_ms ctx d l fs false r set made written =
    let (s, reach, phase, shared, signals) =
      given_up (is_nushell ctx.shell) ctx.parent_pid l.connections (set refl) in
    (s, reach, phase, shared, signals ∙ sym (run_load-cancelled_wakes_none mux_delay_ms ctx l fs r))
