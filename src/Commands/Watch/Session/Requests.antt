-- ===== src/Commands/Watch/Session/Requests.antt =====
-- What the daemon of src/daemon.rs makes of a watch of src/commands/watch.rs.
use direnv_instant.Prelude.{
  Text, text_eq_refl, Bool, true, false, ◌&&◌, Option, none, some, is_some, List, [], ◌∷◌, ◌++◌,
  append_assoc, append-nil, ◌≡◌, refl, sym, ap, ◌∙◌, if◌then◌else◌, Bool-cases, inl, inr,
}
use direnv_instant.Daemon.Protocol.{watch_message, stop_message}
use direnv_instant.Daemon.Registry.{Shared, handle_connection, serve}
use direnv_instant.Commands.{Event, send, probe, exit}
use direnv_instant.Commands.Start.Others.{received_at}
use direnv_instant.Commands.Watch.{
  Round, Pane, Next, continue, broken, cancelled, watch, after_watch,
}
use direnv_instant.Commands.Watch.Ends.{Continues, watch-cancelled}
use direnv_instant.Commands.Watch.Session.Terminal.{run_watch-restores}
use direnv_instant.Commands.Watch.Session.{
  ControlMessage, Selected, readable, elapsed, select_error, Asking, on_received, on_selected,
  asked, ask_pty, Termios, Session, returned, exited, wait_for_log, LogWait, trying, open_log,
  timed_out, finish, monitor, guard_for, ask_on_terminal, first_pane, with_log, on_log, run_watch,
}

module _ (path : Text) where
  -- The daemon at the path behind the events.
  abbrev pub behind : List Event → Shared → Shared
  behind es sh = serve (received_at path es) sh

  -- Events that the daemon does not notice.
  abbrev Idle : List Event → Type 0
  Idle es = (more : List Event) (sh : Shared) → behind (es ++ more) sh ≡ behind more sh

  Idle-append : (xs ys : List Event) → Idle xs → Idle ys → Idle (xs ++ ys)
  Idle-append xs ys hx hy more sh =
      ap (λ es. behind es sh) (append_assoc xs ys more) ∙ hx (ys ++ more) sh ∙ hy more sh

  Idle-probe : Idle (probe path ∷ [])
  unfolding serve handle_connection
  Idle-probe more sh = rw (text_eq_refl path) refl

  Idle-watch : (es : List Event) → Idle es → Idle (send path watch_message ∷ es)
  unfolding serve handle_connection watch_message
  Idle-watch es h more sh = rw (text_eq_refl path) (h more sh)

  behind-Idle : (es : List Event) (sh : Shared) → Idle es → behind es sh ≡ sh
  unfolding serve
  behind-Idle es sh h = ap (λ xs. behind xs sh) (sym (append-nil es)) ∙ h [] sh

  on_received-Idle : (m : Option (List ControlMessage)) → Idle (on_received m).0
  unfolding on_received
  on_received-Idle none more sh = refl
  on_received-Idle (some messages) more sh = refl

  on_selected-Idle : (q : Asking) (r : Selected) → Idle (on_selected q r).0
  unfolding on_selected
  on_selected-Idle q readable more sh = on_received-Idle q.received more sh
  on_selected-Idle q elapsed more sh = refl
  on_selected-Idle q select_error more sh = refl

  ask_pty-Idle : (q : Asking) → Idle (ask_pty q path).0
  unfolding ask_pty asked
  ask_pty-Idle q more sh = elim (Bool-cases q.connected) [
    | inl on ↦ rw on (asked-Idle more sh)
    | inr off ↦ rw off refl
  ]
    where
      asked-Idle : Idle (asked q path).0
      asked-Idle more sh = elim (Bool-cases q.written) [
        | inl on ↦
            rw on (Idle-watch (on_selected q q.selected).0 (on_selected-Idle q q.selected) more sh)
        | inr off ↦ rw off (Idle-watch [] (λ more sh. refl) more sh)
      ]

  ask_on_terminal-Idle : (s : Session) → Idle (ask_on_terminal s path).0
  unfolding ask_on_terminal
  ask_on_terminal-Idle s more sh = elim (Bool-cases s.is_terminal) [
    | inl on ↦ rw on (ask_pty-Idle s.asking more sh)
    | inr off ↦ rw off refl
  ]

  -- Whether the end of the loop and the test behind it find that SIGINT has come.
  abbrev pub stops : Bool → Next → Bool
  stops late (continue p) = false
  stops late (broken p) = late
  stops late (cancelled p) = true

  behind-stop :
      (es : List Event) (sh : Shared)
      → Idle es
      → behind (es ++ send path stop_message ∷ []) sh ≡ record sh { should_stop = true }
  unfolding serve handle_connection stop_message
  behind-stop es sh h = h _ sh ∙ rw (text_eq_refl path) refl

  finish-behind :
      (s : Session) (guard : Option Termios) (now : Termios) (es : List Event) (n : Next)
      (sh : Shared)
      → Idle es
      → behind (finish s path guard now es n).events sh
        ≡ (if stops s.late n then record sh { should_stop = true } else sh)
  unfolding finish after_watch serve
  finish-behind s guard now es (continue p) sh h = behind-Idle es sh h
  finish-behind s guard now es (cancelled p) sh h = behind-stop es sh h
  finish-behind s guard now es (broken p) sh h = elim (Bool-cases s.late) [
    | inl on ↦ rw on (behind-stop es sh h)
    | inr off ↦ rw off (h [] sh)
  ]

  abbrev loop : Session → Next
  unfolding watch
  loop s = let pty = (ask_on_terminal s path).1 in watch (is_some pty) s.rounds (first_pane pty)

  -- The log is opened, the second connection is made, and the loop or the test behind it finds that
  -- SIGINT has come.
  abbrev interrupted_in : Session → LogWait → Bool
  unfolding loop
  interrupted_in s trying = false
  interrupted_in s timed_out = false
  interrupted_in s open_log = s.monitors && stops s.late (loop s)

  unfoldable pub interrupted_by : Session → Bool
  unfolding wait_for_log interrupted_in
  interrupted_by s = interrupted_in s (wait_for_log s.attempts)

  with_log-behind :
      (s : Session) (t : Termios) (sh : Shared)
      → behind (with_log s path t).events sh
        ≡ (if s.monitors && stops s.late (loop s) then record sh { should_stop = true } else sh)
  unfolding with_log monitor loop serve
  with_log-behind s t sh =
      let (es, pty) = ask_on_terminal s path in
      let idle = ask_on_terminal-Idle s in
      elim (Bool-cases s.monitors) [
        | inl on ↦ rw on (
            finish-behind s (guard_for s pty t).0 (guard_for s pty t).1 (es ++ probe path ∷ [])
              (loop s) sh (Idle-append es (probe path ∷ []) idle Idle-probe))
        | inr off ↦ rw off (idle (exit 1 ∷ []) sh)
      ]

  -- All that a watch makes of the daemon's state is to set the stop flag, and it does that exactly
  -- when the log was opened, the second connection was made, and SIGINT is found to have come, by
  -- the test before a round or by the one behind the end of the loop.
  pub run_watch-serve :
      (s : Session) (t : Termios) (sh : Shared)
      → serve (received_at path (run_watch s path t).events) sh
        ≡ (if interrupted_by s then record sh { should_stop = true } else sh)
  unfolding run_watch interrupted_by interrupted_in on_log serve
  run_watch-serve s t sh = go (wait_for_log s.attempts)
    where
      go :
          (w : LogWait)
          → behind (on_log s path t w).events sh
            ≡ (if interrupted_in s w then record sh { should_stop = true } else sh)
      go trying = refl
      go timed_out = refl
      go open_log = with_log-behind s t sh

  loop_cancelled :
      (s : Session) (rs : List Round) (r : Round) (more : List Round) (q : Pane)
      → s.rounds ≡ rs ++ r ∷ more
      → Continues (is_some (ask_on_terminal s path).1) rs (first_pane (ask_on_terminal s path).1) q
      → r.interrupted ≡ true
      → loop s ≡ cancelled q
  unfolding loop
  loop_cancelled s rs r more q e goes i =
      let pty = (ask_on_terminal s path).1 in
      ap (λ xs. watch (is_some pty) xs (first_pane pty)) e
      ∙ watch-cancelled (is_some pty) rs r more (first_pane pty) q goes i

  interrupted_by-cancelled :
      (s : Session) (q : Pane)
      → wait_for_log s.attempts ≡ open_log
      → s.monitors ≡ true
      → loop s ≡ cancelled q
      → interrupted_by s ≡ true
  unfolding interrupted_by interrupted_in
  interrupted_by-cancelled s q opened on ended =
      ap (interrupted_in s) opened
      ∙ ap (λ b. b && stops s.late (loop s)) on
      ∙ ap (stops s.late) ended

  run_watch-returned :
      (s : Session) (t : Termios) (q : Pane)
      → wait_for_log s.attempts ≡ open_log
      → s.monitors ≡ true
      → loop s ≡ cancelled q
      → (run_watch s path t).end ≡ returned
  unfolding run_watch on_log with_log monitor loop finish
  run_watch-returned s t q opened on ended =
      let (es, pty) = ask_on_terminal s path in
      let (guard, now) = guard_for s pty t in
      ap (λ w. (on_log s path t w).end) opened
      ∙ ap
          (λ b.
            (if b
              then finish s path guard now (es ++ probe path ∷ []) (loop s)
              else record { end = exited; termios = now; events = es ++ exit 1 ∷ [] }).end)
          on
      ∙ ap (λ n. (finish s path guard now (es ++ probe path ∷ []) n).end) ended

  -- After rounds that all go on, SIGINT ends the watch, the daemon's stop flag is set, whatever
  -- shells are registered with it, and the terminal is as before, provided that the log was opened,
  -- the second connection was made, and the call that restores the settings succeeds.
  pub run_watch-stops :
      (s : Session) (t : Termios) (sh : Shared) (rs : List Round) (r : Round) (more : List Round)
      (q : Pane)
      → wait_for_log s.attempts ≡ open_log
      → s.monitors ≡ true
      → s.rounds ≡ rs ++ r ∷ more
      → Continues (is_some (ask_on_terminal s path).1) rs (first_pane (ask_on_terminal s path).1) q
      → r.interrupted ≡ true
      → s.restores ≡ true
      → ((run_watch s path t).end ≡ returned)
        × ((serve (received_at path (run_watch s path t).events) sh).should_stop ≡ true)
        × ((run_watch s path t).termios ≡ t)
  run_watch-stops s t sh rs r more q opened on e goes i restores =
      let ended = loop_cancelled s rs r more q e goes i in
      let back = run_watch-returned s t q opened on ended in
      (
        back,
        ap (λ x. x.should_stop) (run_watch-serve s t sh)
            ∙ ap (λ b. (if b then record sh { should_stop = true } else sh).should_stop)
                (interrupted_by-cancelled s q opened on ended),
        run_watch-restores s path t restores back,
      )
