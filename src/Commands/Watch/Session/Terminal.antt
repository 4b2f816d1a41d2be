-- ===== src/Commands/Watch/Session/Terminal.antt =====
-- What src/commands/watch.rs leaves of the terminal's settings, and how its wait for the log ends.
use direnv_instant.Prelude.{
  ℕ, Text, true, false, Option, none, some, List, [], ◌∷◌, ◌++◌, ◌≡◌, ◌≢◌, ◌↔◌, ◌⊎◌, inl, inr, refl,
  ap, ◌∙◌, arith, ◌<◌, ◌≤◌, Any, is_some, Bool-cases,
}
use direnv_instant.Commands.{Event, exit, probe}
use direnv_instant.Commands.Watch.{Next, continue, broken, cancelled, watch}
use direnv_instant.Commands.Watch.Session.{
  Attempt, LogWait, trying, open_log, timed_out, timeout, wait_for_log, Termios, raw, Session,
  returned, exited, drop_guard, finish, monitor, guard_for, ask_on_terminal, first_pane, with_log,
  on_log, run_watch,
}

module _ (s : Session) (socket_path : Text) (t : Termios) where
  -- Dropping the guard gives the settings from before it was made.
  drop_guard-guard_for :
      (pty : Option ℕ)
      → s.restores ≡ true
      → drop_guard s (guard_for s pty t).0 (guard_for s pty t).1 ≡ t
  unfolding guard_for
  drop_guard-guard_for none h = refl
  drop_guard-guard_for (some fd) h = ground arith

  finish-returned :
      (guard : Option Termios) (now : Termios) (events : List Event) (n : Next)
      → (finish s socket_path guard now events n).end ≡ returned
      → (finish s socket_path guard now events n).termios ≡ drop_guard s guard now
  unfolding finish
  finish-returned guard now events (continue p) h = absurd (cc)
  finish-returned guard now events (broken p) h = refl
  finish-returned guard now events (cancelled p) h = refl

  monitor-returned :
      (pty : Option ℕ) (guard : Option Termios) (now : Termios) (events : List Event)
      → (monitor s socket_path pty guard now events).end ≡ returned
      → (monitor s socket_path pty guard now events).termios ≡ drop_guard s guard now
  unfolding monitor
  monitor-returned pty guard now events h = elim (Bool-cases s.monitors) [
    | inl on ↦ rw on (
        finish-returned guard now (events ++ probe socket_path ∷ [])
          (watch (is_some pty) s.rounds (first_pane pty)) (rw on at h))
    | inr off ↦ absurd (cc (rw off at h))
  ]

  on_log-returned :
      (w : LogWait)
      → s.restores ≡ true
      → (on_log s socket_path t w).end ≡ returned
      → (on_log s socket_path t w).termios ≡ t
  unfolding on_log with_log
  on_log-returned trying r h = refl
  on_log-returned timed_out r h = refl
  on_log-returned open_log r h =
      let (events, pty) = ask_on_terminal s socket_path in
      let (guard, now) = guard_for s pty t in
      monitor-returned pty guard now events h ∙ drop_guard-guard_for pty r

  -- A watch that returns leaves the terminal as it found it, whether it got the pty or not and however
  -- its loop ended, provided that the call that restores the settings succeeds.
  pub run_watch-restores :
      s.restores ≡ true
      → (run_watch s socket_path t).end ≡ returned
      → (run_watch s socket_path t).termios ≡ t
  unfolding run_watch
  run_watch-restores r h = on_log-returned (wait_for_log s.attempts) r h

  monitor-lost :
      (pty : Option ℕ) (guard : Option Termios) (now : Termios) (events : List Event)
      → s.monitors ≡ false
      → monitor s socket_path pty guard now events
        ≡ record { end = exited; termios = now; events = events ++ exit 1 ∷ [] }
  unfolding monitor
  monitor-lost pty guard now events lost = rw lost

  guard_for-raw :
      (fd : ℕ) → s.got_termios ≡ true → s.made_raw ≡ true → (guard_for s (some fd) t).1 ≡ raw t
  unfolding guard_for
  guard_for-raw fd got made = rw (got, made) refl

  with_log-lost :
      s.monitors ≡ false
      → with_log s socket_path t ≡ record {
        end = exited;
        termios = (guard_for s (ask_on_terminal s socket_path).1 t).1;
        events = (ask_on_terminal s socket_path).0 ++ exit 1 ∷ [];
      }
  unfolding with_log
  with_log-lost lost =
      let (events, pty) = ask_on_terminal s socket_path in
      let (guard, now) = guard_for s pty t in monitor-lost pty guard now events lost

  -- A watch that has put the terminal into raw mode and cannot connect to the daemon again exits with
  -- the terminal still in raw mode.
  pub run_watch-exit_raw :
      (fd : ℕ)
      → wait_for_log s.attempts ≡ open_log
      → (ask_on_terminal s socket_path).1 ≡ some fd
      → s.got_termios ≡ true
      → s.made_raw ≡ true
      → s.monitors ≡ false
      → ((run_watch s socket_path t).end ≡ exited) × ((run_watch s socket_path t).termios ≡ raw t)
  unfolding run_watch on_log
  run_watch-exit_raw fd opened pty got made lost =
      let e = ap (on_log s socket_path t) opened ∙ with_log-lost lost in
      (
        ap (λ o. o.end) e,
        ap (λ o. o.termios) e ∙ ap (λ p. (guard_for s p t).1) pty ∙ guard_for-raw fd got made,
      )

-- An attempt succeeds before one fails with the time used up.
abbrev pub OpensInTime : List Attempt → Type 0
OpensInTime [] = ⊥
OpensInTime (a ∷ as') =
    (a.opened ≡ true) ⊎ ((a.opened ≡ false) × (a.elapsed ≤ timeout) × OpensInTime as')

-- The wait for the log ends with the log exactly when an attempt to open it succeeds, and every one
-- before it failed within five seconds.
pub wait_for_log-opens : (ts : List Attempt) → (wait_for_log ts ≡ open_log) ↔ OpensInTime ts
unfolding wait_for_log
wait_for_log-opens [] = (λ h. absurd (cc), λ h. absurd h)
wait_for_log-opens (t ∷ ts) =
    (λ h. ground (arith, (wait_for_log-opens ts).0), λ h. ground (arith, (wait_for_log-opens ts).1))

-- The wait ends with a result as soon as an attempt succeeds or fails after more than five seconds.
pub wait_for_log-ends :
    (ts : List Attempt)
    → Any (λ a. (a.opened ≡ true) ⊎ (timeout < a.elapsed)) ts
    → wait_for_log ts ≢ trying
unfolding wait_for_log
wait_for_log-ends [] h e = absurd h
wait_for_log-ends (t ∷ ts) (inl h) e = ground arith
wait_for_log-ends (t ∷ ts) (inr h) e = ground (arith, wait_for_log-ends ts h)
