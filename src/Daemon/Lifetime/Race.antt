-- ===== src/Daemon/Lifetime/Race.antt =====
-- A shell that joins a daemon of src/daemon.rs between its signals and its end.
use direnv_instant.Prelude.{
  Text, ℤ, int_eq_iff, true, false, Option, some, [], ◌∷◌, ◌≡◌, ◌≢◌, refl, sym, ap, ◌∙◌, arith,
}
use direnv_instant.Daemon.Protocol.{notify}
use direnv_instant.Daemon.Registry.{contains, handle_connection, initial}
use direnv_instant.Daemon.Registry.View.{request_of, member_after, contains-handle_connection}
use direnv_instant.Daemon.Publish.{wake_shells}
use direnv_instant.Daemon.Publish.Signals.{woken, woken-wake_shells}
use direnv_instant.Daemon.Lifetime.{signalled, ended, State, Step, Reach, begin}

module _ (parent_pid pid : ℤ) (c : Option Text) where
  -- Signalled, with something to show, before the connection.
  abbrev early : State
  early = record (begin false parent_pid) {
    phase = signalled true;
    signals = woken (wake_shells true (initial false parent_pid).notify_pids);
  }

  abbrev late : State
  late = record early {
    shared = (handle_connection c true (initial false parent_pid)).0;
    heard = c ∷ [];
    phase = ended (some true);
  }

  late-Reach : Reach false parent_pid late
  late-Reach =
      Reach.next
        (Reach.next
          (Reach.next (Reach.next Reach.start (Step.publish (begin false parent_pid) true refl))
            (Step.signal _ true refl))
          (Step.connect early c tt))
        (Step.leave _ true refl)

  late_member :
      request_of c ≡ some (notify pid)
      → contains (handle_connection c true (initial false parent_pid)).0.notify_pids pid ≡ true
  unfolding initial contains
  late_member e =
      contains-handle_connection c true (initial false parent_pid) pid (refl, tt)
      ∙ ap (λ r. member_after r pid (contains (parent_pid ∷ []) pid)) e
      ∙ ground (arith, int_eq_iff pid pid)

  never_signalled :
      pid ≢ parent_pid
      → contains (woken (wake_shells true (initial false parent_pid).notify_pids)) pid ≡ false
  unfolding initial contains
  never_signalled n =
      ap (λ pids. contains pids pid) (woken-wake_shells true (parent_pid ∷ []))
      ∙ ground (arith, int_eq_iff parent_pid pid, λ (h : parent_pid ≡ pid). n (sym h))

  -- A daemon can end, with something to show and without a stop, in a state in which a shell whose
  -- request to be notified it has read and registered was never signalled: the connection came after
  -- the signals.
  pub Reach-lost :
      request_of c ≡ some (notify pid)
      → pid ≢ parent_pid
      → (s : State) × Reach false parent_pid s
        × (s.heard ≡ c ∷ [])
        × (s.phase ≡ ended (some true))
        × (contains s.shared.notify_pids pid ≡ true)
        × (contains s.signals pid ≡ false)
  Reach-lost e n = (late, late-Reach, refl, refl, late_member e, never_signalled n)
