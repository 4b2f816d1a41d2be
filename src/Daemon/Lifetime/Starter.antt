-- ===== src/Daemon/Lifetime/Starter.antt =====
-- What the shell that started a daemon of src/daemon.rs is told of its end, in every interleaving.
use direnv_instant.Prelude.{
  Text, ℤ, int_eq_iff, Bool, true, false, Option, none, some, List, [], ◌∷◌, ◌≡◌, ◌≢◌, refl, subst,
  arith, All,
}
use direnv_instant.Daemon.Protocol.{stop, detach}
use direnv_instant.Daemon.Registry.{Shared, contains, handle_connection, serve, initial}
use direnv_instant.Daemon.Registry.Pids.{NodupPids}
use direnv_instant.Daemon.Registry.View.{request_of}
use direnv_instant.Daemon.Registry.Stopping.{serve_protects}
use direnv_instant.Daemon.Publish.{wake_shells}
use direnv_instant.Daemon.Publish.Signals.{woken, woken-wake_shells}
use direnv_instant.Daemon.Lifetime.{
  Phase, copying, published, signalled, cancelled, ended, State, Step, Reach, begin,
}
use direnv_instant.Daemon.Lifetime.Shells.{Reach-Inv}

-- What the phase means for the shell.
abbrev TellsAt : Phase → ℤ → List ℤ → Type 0
TellsAt copying p signals = Unit
TellsAt (published shown) p signals = Unit
TellsAt (signalled true) p signals = contains signals p ≡ true
TellsAt (signalled false) p signals = Unit
TellsAt cancelled p signals = ⊥
TellsAt (ended none) p signals = ⊥
TellsAt (ended (some true)) p signals = contains signals p ≡ true
TellsAt (ended (some false)) p signals = Unit

record Waits (p : ℤ) (s : State) : Type 0 where
  registered : contains s.shared.notify_pids p ≡ true
  running : s.shared.should_stop ≡ false
  tells : TellsAt s.phase p s.signals

abbrev pub Spares : ℤ → Option Text → Type 0
Spares p c = (request_of c ≢ some stop) × (request_of c ≢ some (detach p))

begin-Waits : (p : ℤ) → Waits p (begin false p)
unfolding initial contains
begin-Waits p = record { registered = ground (arith, int_eq_iff p p); running = refl; tells = tt }

signalled-TellsAt :
    (shown : Bool) (pids : List ℤ) (p : ℤ)
    → contains pids p ≡ true
    → TellsAt (signalled shown) p (woken (wake_shells shown pids))
signalled-TellsAt true pids p h = rw (woken-wake_shells true pids) h
signalled-TellsAt false pids p h = tt

ended-TellsAt :
    (shown : Bool) (p : ℤ) (signals : List ℤ)
    → TellsAt (signalled shown) p signals
    → TellsAt (ended (some shown)) p signals
ended-TellsAt true p signals h = h
ended-TellsAt false p signals h = tt

protected :
    (p : ℤ) (c : Option Text) (s : Shared)
    → NodupPids s.notify_pids
    → contains s.notify_pids p ≡ true
    → s.should_stop ≡ false
    → Spares p c
    → ((handle_connection c true s).0.should_stop ≡ false)
      × (contains (handle_connection c true s).0.notify_pids p ≡ true)
unfolding serve
protected p c s nodup member running spares =
    serve_protects p (c ∷ []) s nodup member running (spares, tt)

module _ (p : ℤ) where
  Step-Waits :
      {s t : State}
      → Step s t
      → NodupPids s.shared.notify_pids
      → All (Spares p) t.heard
      → (All (Spares p) s.heard → Waits p s)
      → Waits p t
  Step-Waits (Step.connect s c alive) nodup (spares, others) before =
      let w = before others in
      let (running, member) = protected p c s.shared nodup w.registered w.running spares in
      record { registered = member; running = running; tells = w.tells }
  Step-Waits (Step.stop s e set) nodup others before = absurd (cc (before others).running)
  Step-Waits (Step.publish s shown e) nodup others before =
      let w = before others in record { registered = w.registered; running = w.running; tells = tt }
  Step-Waits (Step.signal s shown e) nodup others before =
      let w = before others in
      record {
        registered = w.registered;
        running = w.running;
        tells = signalled-TellsAt shown s.shared.notify_pids p w.registered;
      }
  Step-Waits (Step.leave s shown e) nodup others before =
      let w = before others in
      record {
        registered = w.registered;
        running = w.running;
        tells = ended-TellsAt shown p s.signals (subst (λ ph. TellsAt ph p s.signals) e w.tells);
      }
  Step-Waits (Step.give_up s e) nodup others before =
      absurd (subst (λ ph. TellsAt ph p s.signals) e (before others).tells)

  Reach-Waits : {s : State} → Reach false p s → All (Spares p) s.heard → Waits p s
  Reach-Waits Reach.start others = begin-Waits p
  Reach-Waits (Reach.next r step) others = Step-Waits step (Reach-Inv r).once others (Reach-Waits r)

  tells_ended :
      (shown : Option Bool) (signals : List ℤ)
      → TellsAt (ended shown) p signals
      → (shown ≢ none) × (shown ≡ some true → contains signals p ≡ true)
  tells_ended none signals h = absurd h
  tells_ended (some true) signals h = (λ e. cc, λ e. h)
  tells_ended (some false) signals h = (λ e. cc, λ e. absurd (cc))

  -- However the threads of a daemon interleave that was started by a shell other than Nushell: if
  -- no connection asks for a stop without a pid or detaches the shell that started it, the daemon
  -- does not cancel the load, and when its process has ended with something to show, that shell has
  -- been signalled.
  pub Reach-starter :
      (s : State) (shown : Option Bool)
      → Reach false p s
      → All (Spares p) s.heard
      → s.phase ≡ ended shown
      → (shown ≢ none) × (shown ≡ some true → contains s.signals p ≡ true)
  Reach-starter s shown r others e =
      tells_ended shown s.signals
        (subst (λ ph. TellsAt ph p s.signals) e (Reach-Waits r others).tells)
