-- ===== src/Daemon/Lifetime/Tests.antt =====
-- Daemons of src/daemon.rs at concrete interleavings.
use direnv_instant.Prelude.{
  Text, ℤ, pos, int_eq, parse_i32, trim, read_line, display, Bool, true, false, Option, none, some,
  [], ◌∷◌, ◌≡◌, ◌≢◌, refl, All, arith,
}
use direnv_instant.Daemon.Protocol.{notify, detach, message}
use direnv_instant.Daemon.Registry.{contains, handle_connection, initial, serve}
use direnv_instant.Daemon.Registry.Pids.{NodupPids}
use direnv_instant.Daemon.Registry.View.{request_of}
use direnv_instant.Daemon.Publish.{wake_shells}
use direnv_instant.Daemon.Publish.Signals.{woken}
use direnv_instant.Daemon.Lifetime.{signalled, ended, State, Step, Reach, begin}
use direnv_instant.Daemon.Publish.Tests.{ctx, ctx-IsDistinct, load, files, load-Runs}
use direnv_instant.Daemon.Publish.{is_nushell, run_load}
use direnv_instant.Daemon.Lifetime.Loads.{end_of, run_load-Reach}
use direnv_instant.Daemon.Lifetime.Shells.{Asked, Reach-signals}
use direnv_instant.Daemon.Lifetime.Starter.{Spares, Reach-starter}
use direnv_instant.Daemon.Lifetime.Race.{Reach-lost}

abbrev joins : Option Text
joins = some (message (notify (pos 3)))

abbrev leaves : Option Text
leaves = some (message (detach (pos 3)))

-- A shell joins, the load ends with something to show, and the shell leaves behind the signals.
joined : State
joined = record (begin false (pos 2)) {
  shared = (handle_connection joins true (initial false (pos 2))).0;
  heard = joins ∷ [];
}

abbrev told : State
unfolding joined
told = record joined {
  phase = signalled true;
  signals = woken (wake_shells true joined.shared.notify_pids);
}

abbrev gone : State
unfolding told
gone = record told {
  shared = (handle_connection leaves true joined.shared).0;
  heard = leaves ∷ joins ∷ [];
  phase = ended (some true);
}

gone-Reach : Reach false (pos 2) gone
unfolding gone
gone-Reach =
    Reach.next
      (Reach.next
        (Reach.next
          (Reach.next (Reach.next Reach.start (Step.connect (begin false (pos 2)) joins tt))
            (Step.publish joined true refl))
          (Step.signal _ true refl))
        (Step.connect told leaves tt))
      (Step.leave _ true refl)

gone_signals : gone.signals ≡ pos 2 ∷ pos 3 ∷ []
unfolding gone handle_connection initial wake_shells message display parse_i32 trim read_line int_eq
gone_signals = refl

Reach-signals_example :
    NodupPids gone.signals
    × ((q : ℤ) → contains gone.signals q ≡ true → Asked false (pos 2) q gone.heard)
Reach-signals_example = Reach-signals gone-Reach

joins_lem : request_of joins ≡ some (notify (pos 3))
unfolding request_of message display parse_i32 trim read_line
joins_lem = refl

leaves_lem : request_of leaves ≡ some (detach (pos 3))
unfolding request_of message display parse_i32 trim read_line
leaves_lem = refl

gone-Spares : All (Spares (pos 2)) gone.heard
unfolding gone
gone-Spares =
    ((λ e. cc leaves_lem, λ e. cc leaves_lem), ((λ e. cc joins_lem, λ e. cc joins_lem), tt))

gone_ended : gone.phase ≡ ended (some true)
unfolding gone
gone_ended = refl

Reach-starter_example :
    (◌≢◌ {A = Option Bool} (some true) none)
    × (◌≡◌ {A = Option Bool} (some true) (some true) → contains gone.signals (pos 2) ≡ true)
Reach-starter_example = Reach-starter (pos 2) gone (some true) gone-Reach gone-Spares gone_ended

Reach-lost_example :
    (s : State) × Reach false (pos 2) s
    × (s.heard ≡ joins ∷ [])
    × (s.phase ≡ ended (some true))
    × (contains s.shared.notify_pids (pos 3) ≡ true)
    × (contains s.signals (pos 3) ≡ false)
Reach-lost_example = Reach-lost (pos 2) (pos 3) joins joins_lem (λ e. cc)

run_load-Reach_example :
    (s : State) × Reach (is_nushell ctx.shell) ctx.parent_pid s
    × (s.phase ≡ ended (end_of true load))
    × (s.shared ≡ serve load.connections (initial (is_nushell ctx.shell) ctx.parent_pid))
    × (s.signals ≡ woken (run_load 4000 ctx load files).effects)
run_load-Reach_example =
    run_load-Reach 4000 ctx ctx-IsDistinct load files true load-Runs (λ e. cc) refl (omega arith)
