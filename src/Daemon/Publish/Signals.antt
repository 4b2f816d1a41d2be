-- ===== src/Daemon/Publish/Signals.antt =====
-- Which shells the daemon of src/daemon.rs wakes.
use direnv_instant.Prelude.{
  ℕ, Text, ℤ, int_eq_iff, Bool, true, false, not, ◌||◌, Option, none, some, List, [], ◌∷◌, ◌++◌,
  map, if◌then◌else◌, ◌≡◌, ◌≢◌, refl, sym, ◌∙◌, arith, All, ap, append-nil,
}
use direnv_instant.Mux.Detect.{Multiplexer, nvim, tmux, zellij, wezterm, kitty, herdr}
use direnv_instant.Daemon.Files.{Fs, has_content}
use direnv_instant.Daemon.Context.{DaemonContext, LoadOutcome, cancelled}
use direnv_instant.Daemon.Protocol.{stop, detach}
use direnv_instant.Daemon.Registry.{contains, serve, initial}
use direnv_instant.Daemon.Registry.View.{request_of}
use direnv_instant.Daemon.Registry.Stopping.{serve_protects}
use direnv_instant.Daemon.Pump.Log.{received, IsWritten}
use direnv_instant.Daemon.Publish.{
  Load, Effect, terminate_child, report, wake, finish, publish, publish_stderr, wake_shells,
  is_nushell, run_load,
}
use direnv_instant.Daemon.Publish.Stages.{
  IsDistinct, Runs, copied, run_load-finished, run_load-cancelled,
}
use direnv_instant.Daemon.Publish.Environment.{
  publish_stderr_other, copied_temp_file, copied_temp_stderr, temp_after,
}

-- The shells that get SIGUSR1, in order.
abbrev pub woken : List Effect → List ℤ
woken [] = []
woken (terminate_child ∷ es) = woken es
woken (report outcome ∷ es) = woken es
woken (wake pid ∷ es) = pid ∷ woken es

abbrev pub is_empty_text : Text → Bool
is_empty_text [] = true
is_empty_text (c ∷ s) = false

abbrev pub exports_something : Option Text → Bool
exports_something none = false
exports_something (some s) = not (is_empty_text s)

-- The shells that are registered when the load ends.
abbrev pub waiting : DaemonContext → Load → List ℤ
waiting ctx l = (serve l.connections (initial (is_nushell ctx.shell) ctx.parent_pid)).notify_pids

woken-wake : (pids : List ℤ) → woken (map wake pids) ≡ pids
woken-wake [] = refl
woken-wake (p ∷ pids) = ap (λ r. p ∷ r) (woken-wake pids)

pub woken-wake_shells :
    (b : Bool) (pids : List ℤ) → woken (wake_shells b pids) ≡ (if b then pids else [])
unfolding wake_shells
woken-wake_shells true pids = woken-wake pids
woken-wake_shells false pids = refl

woken-finish :
    (m : Option Multiplexer) (outcome : LoadOutcome) (es : List Effect)
    → woken (finish m outcome ++ es) ≡ woken es
unfolding finish
woken-finish none outcome es = refl
woken-finish (some nvim) outcome es = refl
woken-finish (some tmux) outcome es = refl
woken-finish (some zellij) outcome es = refl
woken-finish (some wezterm) outcome es = refl
woken-finish (some kitty) outcome es = refl
woken-finish (some herdr) outcome es = refl

woken-finish_alone :
    (m : Option Multiplexer) (outcome : LoadOutcome) → woken (finish m outcome) ≡ []
woken-finish_alone m outcome =
    ap woken (sym (append-nil (finish m outcome))) ∙ woken-finish m outcome []

has_content-some :
    (path : Text) (fs : Fs) (s : Text)
    → fs path ≡ some s
    → has_content path fs ≡ not (is_empty_text s)
has_content-some path fs [] h = rw h
has_content-some path fs (c ∷ s) h = rw h

has_content-temp_after :
    (path : Text) (fs : Fs) (exported : Option Text)
    → fs path ≡ temp_after exported
    → has_content path fs ≡ exports_something exported
has_content-temp_after path fs none h = has_content-some path fs [] h
has_content-temp_after path fs (some s) h = has_content-some path fs s h

module _ (mux_delay_ms : ℕ) (ctx : DaemonContext) (d : IsDistinct ctx) (l : Load) (fs : Fs) where
  -- After a load that was not cancelled, and in which all writes to the log succeeded, the shells
  -- that are registered at its end are signalled, in order, if direnv wrote or exported anything,
  -- and no shell is signalled otherwise. The daemon gets its socket, child and log, the six files
  -- are different paths and the first temporary file was created empty.
  pub run_load-woken :
      Runs mux_delay_ms ctx l true
      → fs ctx.temp_file ≡ some []
      → All (λ r. IsWritten r.select) l.rounds
      → woken (run_load mux_delay_ms ctx l fs).effects ≡ (
          if not (is_empty_text (received l.rounds)) || exports_something l.exported
          then waiting ctx l
          else [])
  unfolding publish
  run_load-woken r made written =
      let before = copied mux_delay_ms ctx l fs in
      rw (run_load-finished mux_delay_ms ctx l fs r, woken-finish, woken-wake_shells)
        (rw (
          exports before (
              publish_stderr_other ctx d l before ctx.temp_file
                (λ e. d.temp_file-temp_stderr (sym e)) (λ e. d.temp_file-stderr_file (sym e))
              ∙ copied_temp_file ctx d l mux_delay_ms fs made),
          messages before (copied_temp_stderr ctx d l mux_delay_ms fs written),
        ))
    where
      messages :
          (before : Fs)
          → before ctx.temp_stderr ≡ some (received l.rounds)
          → has_content ctx.temp_stderr before ≡ not (is_empty_text (received l.rounds))
      messages before = has_content-some ctx.temp_stderr before (received l.rounds)

      exports :
          (before : Fs)
          → publish_stderr ctx l before ctx.temp_file ≡ temp_after l.exported
          → has_content ctx.temp_file (publish_stderr ctx l before) ≡ exports_something l.exported
      exports before = has_content-temp_after ctx.temp_file (publish_stderr ctx l before) l.exported

-- No shell is woken by a cancelled load.
pub run_load-cancelled_wakes_none :
    (mux_delay_ms : ℕ) (ctx : DaemonContext) (l : Load) (fs : Fs)
    → Runs mux_delay_ms ctx l false
    → woken (run_load mux_delay_ms ctx l fs).effects ≡ []
run_load-cancelled_wakes_none mux_delay_ms ctx l fs r =
    rw (run_load-cancelled mux_delay_ms ctx l fs r) (woken-finish_alone ctx.multiplexer cancelled)

starter_waits :
    (handler_missing : Bool) (pid : ℤ) (cs : List (Option Text))
    → handler_missing ≡ false
    → All (λ c. (request_of c ≢ some stop) × (request_of c ≢ some (detach pid))) cs
    → contains (serve cs (initial handler_missing pid)).notify_pids pid ≡ true
unfolding initial contains
starter_waits handler_missing pid cs e others =
    rw e
      (serve_protects pid cs (initial false pid) (refl, tt) (ground (arith, int_eq_iff pid pid))
        refl others).1

-- The shell that started a load is woken at its end, if there is anything to show: whatever other
-- clients do meanwhile, it is among the shells that get a signal, unless it detaches itself or
-- somebody asks for a stop with no pid.
pub run_load-wakes_starter :
    (mux_delay_ms : ℕ) (ctx : DaemonContext) (d : IsDistinct ctx) (l : Load) (fs : Fs)
    → Runs mux_delay_ms ctx l true
    → fs ctx.temp_file ≡ some []
    → All (λ r. IsWritten r.select) l.rounds
    → (not (is_empty_text (received l.rounds)) || exports_something l.exported) ≡ true
    → is_nushell ctx.shell ≡ false
    → All
        (λ c. (request_of c ≢ some stop) × (request_of c ≢ some (detach ctx.parent_pid)))
        l.connections
    → contains (woken (run_load mux_delay_ms ctx l fs).effects) ctx.parent_pid ≡ true
run_load-wakes_starter mux_delay_ms ctx d l fs r made written something handler others =
    rw (run_load-woken mux_delay_ms ctx d l fs r made written, something)
      (starter_waits (is_nushell ctx.shell) ctx.parent_pid l.connections handler others)
