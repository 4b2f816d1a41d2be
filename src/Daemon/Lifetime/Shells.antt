-- ===== src/Daemon/Lifetime/Shells.antt =====
-- Which shells a daemon of src/daemon.rs ever signals, in every interleaving of its threads.
use direnv_instant.Prelude.{
  Text, ℤ, int_eq_iff, Bool, true, false, Option, none, some, List, [], ◌∷◌, ◌≡◌, ◌≢◌, ◌⊎◌, inl,
  inr, refl, sym, ◌∙◌, arith, Any,
}
use direnv_instant.Daemon.Protocol.{Request, notify, detach, stop, watch}
use direnv_instant.Daemon.Registry.{contains, initial}
use direnv_instant.Daemon.Registry.Pids.{NodupPids}
use direnv_instant.Daemon.Registry.View.{request_of, member_after, handle_connection-members}
use direnv_instant.Daemon.Publish.{wake_shells}
use direnv_instant.Daemon.Publish.Signals.{woken, woken-wake_shells}
use direnv_instant.Daemon.Lifetime.{Phase, State, Step, Reach, begin}

-- The shell started the daemon and has a signal handler, or a connection asked to notify it.
abbrev pub Asked : Bool → ℤ → ℤ → List (Option Text) → Type 0
Asked is_nushell parent_pid q heard =
    ((is_nushell ≡ false) × (q ≡ parent_pid)) ⊎ Any (λ c. request_of c ≡ some (notify q)) heard

pub record Inv (is_nushell : Bool) (parent_pid : ℤ) (s : State) : Type 0 where
  pub once : NodupPids s.shared.notify_pids
  pub registered :
      (q : ℤ) → contains s.shared.notify_pids q ≡ true → Asked is_nushell parent_pid q s.heard
  pub signalled_once : NodupPids s.signals
  pub signalled : (q : ℤ) → contains s.signals q ≡ true → Asked is_nushell parent_pid q s.heard

new_member :
    (r : Option Request) (q : ℤ) (old : Bool)
    → member_after r q old ≡ true
    → (r ≡ some (notify q)) ⊎ (old ≡ true)
new_member none q old h = inr h
new_member (some (notify p)) q old h = ground (arith, int_eq_iff p q)
new_member (some (detach p)) q old h = ground arith
new_member (some stop) q old h = inr h
new_member (some watch) q old h = inr h

initial-NodupPids : (is_nushell : Bool) (pid : ℤ) → NodupPids (initial is_nushell pid).notify_pids
unfolding initial contains
initial-NodupPids true pid = tt
initial-NodupPids false pid = (refl, tt)

initial-member :
    (is_nushell : Bool) (pid q : ℤ)
    → contains (initial is_nushell pid).notify_pids q ≡ true
    → (is_nushell ≡ false) × (q ≡ pid)
unfolding initial contains
initial-member true pid q h = absurd (cc)
initial-member false pid q h = (refl, ground (arith, int_eq_iff pid q))

nobody : (q : ℤ) → contains [] q ≢ true
unfolding contains
nobody q h = cc

-- The shells that are signalled are among those that are registered.
woken_among :
    (shown : Bool) (pids : List ℤ)
    → NodupPids pids
    → NodupPids (woken (wake_shells shown pids))
      × ((q : ℤ) → contains (woken (wake_shells shown pids)) q ≡ true → contains pids q ≡ true)
woken_among true pids nodup = rw (woken-wake_shells true pids) (nodup, λ q h. h)
woken_among false pids nodup = rw (woken-wake_shells false pids) (tt, λ q h. absurd (nobody q h))

module _ (is_nushell : Bool) (parent_pid : ℤ) where
  Asked-cons :
      (q : ℤ) (c : Option Text) (heard : List (Option Text))
      → Asked is_nushell parent_pid q heard
      → Asked is_nushell parent_pid q (c ∷ heard)
  Asked-cons q c heard (inl h) = inl h
  Asked-cons q c heard (inr h) = inr (inr h)

  Asked-new :
      (q : ℤ) (c : Option Text) (heard : List (Option Text)) (old : Bool)
      → (old ≡ true → Asked is_nushell parent_pid q heard)
      → (request_of c ≡ some (notify q)) ⊎ (old ≡ true)
      → Asked is_nushell parent_pid q (c ∷ heard)
  Asked-new q c heard old asked (inl e) = inr (inl e)
  Asked-new q c heard old asked (inr e) = Asked-cons q c heard (asked e)

  begin-Inv : Inv is_nushell parent_pid (begin is_nushell parent_pid)
  begin-Inv = record {
    once = initial-NodupPids is_nushell parent_pid;
    registered = λ q h. inl (initial-member is_nushell parent_pid q h);
    signalled_once = tt;
    signalled = λ q h. absurd (nobody q h);
  }

  -- The phase is no part of the invariant.
  Inv-phase :
      (s : State) (p : Phase)
      → Inv is_nushell parent_pid s
      → Inv is_nushell parent_pid (record s { phase = p })
  Inv-phase s p inv = record {
    once = inv.once;
    registered = inv.registered;
    signalled_once = inv.signalled_once;
    signalled = inv.signalled;
  }

  Step-Inv : {s t : State} → Step s t → Inv is_nushell parent_pid s → Inv is_nushell parent_pid t
  Step-Inv (Step.connect s c alive) inv =
      let (nodup, members) = handle_connection-members c true s.shared inv.once in
      record {
        once = nodup;
        registered = λ q h.
            Asked-new q c s.heard (contains s.shared.notify_pids q) (inv.registered q)
              (new_member (request_of c) q _ (sym (members q) ∙ h));
        signalled_once = inv.signalled_once;
        signalled = λ q h. Asked-cons q c s.heard (inv.signalled q h);
      }
  Step-Inv (Step.stop s e h) inv = Inv-phase s Phase.cancelled inv
  Step-Inv (Step.publish s shown e) inv = Inv-phase s (Phase.published shown) inv
  Step-Inv (Step.signal s shown e) inv =
      let (nodup, some_of) = woken_among shown s.shared.notify_pids inv.once in
      record {
        once = inv.once;
        registered = inv.registered;
        signalled_once = nodup;
        signalled = λ q h. inv.registered q (some_of q h);
      }
  Step-Inv (Step.leave s shown e) inv = Inv-phase s (Phase.ended (some shown)) inv
  Step-Inv (Step.give_up s e) inv = Inv-phase s (Phase.ended none) inv

pub Reach-Inv :
    {is_nushell : Bool} {parent_pid : ℤ} {s : State}
    → Reach is_nushell parent_pid s
    → Inv is_nushell parent_pid s
Reach-Inv {is_nushell} {parent_pid} Reach.start = begin-Inv is_nushell parent_pid
Reach-Inv {is_nushell} {parent_pid} (Reach.next r step) =
    Step-Inv is_nushell parent_pid step (Reach-Inv r)

-- However the threads of a daemon interleave, it signals no shell twice, and only shells that asked
-- for it: the one that started it, if that has a signal handler, and those that a connection asked to
-- notify.
pub Reach-signals :
    {is_nushell : Bool} {parent_pid : ℤ} {s : State}
    → Reach is_nushell parent_pid s
    → NodupPids s.signals
      × ((q : ℤ) → contains s.signals q ≡ true → Asked is_nushell parent_pid q s.heard)
Reach-signals r = let inv = Reach-Inv r in (inv.signalled_once, inv.signalled)
