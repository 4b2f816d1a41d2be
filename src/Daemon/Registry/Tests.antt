-- ===== src/Daemon/Registry/Tests.antt =====
-- The socket commands of src/daemon.rs at concrete inputs.
use direnv_instant.Prelude.{
  Text, codes, ℤ, pos, int_eq, int_eq_iff, true, false, Option, none, some, List, [], ◌∷◌, ◌++◌,
  ◌≡◌, ◌↔◌, ◌≢◌, refl, inr, arith, trim, read_line, parse_i32, display, All, Any,
}
use direnv_instant.Daemon.Protocol.{Request, notify, detach, stop, watch, message}
use direnv_instant.Daemon.Registry.{
  Shared, quiet, unavailable, contains, handle_connection, serve, initial,
}
use direnv_instant.Daemon.Registry.Pids.{NodupPids}
use direnv_instant.Daemon.Registry.Requests.{apply, handle_connection-message}
use direnv_instant.Daemon.Registry.View.{request_of, Stops}
use mathlib.Core.List.{Permᴰ}
use direnv_instant.Daemon.Registry.Order.{serve-Perm}
use direnv_instant.Daemon.Registry.Order.Same.{SameShells, Takes}
use direnv_instant.Daemon.Registry.Stopping.{
  handle_connection-Stops, serve_protects, serve_finishes,
}

-- Two shells wait, and the pty is stored.
abbrev two_shells : Shared
two_shells = record { notify_pids = pos 41 ∷ pos 42 ∷ []; should_stop = false; pty_master = some 7 }

abbrev line : Request → Option Text
line r = some (message r)

-- `stop` of a shell that never registered (tests/stop_ignores_unrelated_pid.rs).
unrelated_pid : handle_connection (some (codes "STOP 1\n")) true two_shells ≡ (two_shells, quiet)
unfolding handle_connection parse_i32 trim int_eq
unrelated_pid = refl

-- A pid that does not fit an `i32` and a word that is no number are ignored.
no_pid :
    handle_connection (some (codes "NOTIFY 2147483648\n")) true two_shells ≡ (two_shells, quiet)
unfolding handle_connection parse_i32 trim int_eq
no_pid = refl

-- Any line that begins with `STOP` and no space behind it stops the daemon.
stop_prefix : (handle_connection (some (codes "STOPPED")) true two_shells).0.should_stop ≡ true
unfolding handle_connection
stop_prefix = refl

watch_before_pty :
    handle_connection (some (codes "WATCH\n")) true (initial false (pos 5))
    ≡ (initial false (pos 5), unavailable)
unfolding handle_connection initial
watch_before_pty = refl

handle_connection-message_example :
    handle_connection (some (message (notify (pos 1234)) ++ codes "x")) true two_shells
    ≡ apply (notify (pos 1234)) true two_shells
handle_connection-message_example =
    handle_connection-message (notify (pos 1234)) (codes "x") true two_shells (omega arith)

two_shells-NodupPids : NodupPids two_shells.notify_pids
unfolding contains int_eq
two_shells-NodupPids = (refl, (refl, tt))

handle_connection-Stops_example :
    let t = (handle_connection (line stop) true two_shells).0 in
    (t.should_stop ≡ true) ↔ Stops (request_of (line stop)) two_shells t
handle_connection-Stops_example = handle_connection-Stops (line stop) true two_shells

-- The other shell detaches, twice, and a third one joins.
abbrev others : List (Option Text)
others = line (detach (pos 42)) ∷ line (detach (pos 42)) ∷ line (notify (pos 43)) ∷ none ∷ []

request_of-others :
    All (λ c. (request_of c ≢ some stop) × (request_of c ≢ some (detach (pos 41)))) others
unfolding request_of message display parse_i32 trim read_line
request_of-others = ground arith

serve_protects_example :
    ((serve others two_shells).should_stop ≡ false)
    × (contains (serve others two_shells).notify_pids (pos 41) ≡ true)
unfolding contains int_eq
serve_protects_example =
    serve_protects (pos 41) others two_shells two_shells-NodupPids refl refl request_of-others

abbrev farewells : List (Option Text)
farewells = line (detach (pos 42)) ∷ line watch ∷ line (detach (pos 41)) ∷ []

farewells_alone : All (λ c. (p : ℤ) → request_of c ≢ some (notify p)) farewells
unfolding request_of message display parse_i32 trim read_line
farewells_alone = (λ p e. cc, (λ p e. cc, (λ p e. cc, tt)))

farewells_leave :
    (p : ℤ)
    → contains two_shells.notify_pids p ≡ true
    → Any (λ c. request_of c ≡ some (detach p)) farewells
unfolding request_of message display parse_i32 trim read_line contains
farewells_leave p h = ground (arith, int_eq_iff (pos 41) p, int_eq_iff (pos 42) p)

serve_finishes_example : (serve farewells two_shells).should_stop ≡ true
unfolding contains int_eq
serve_finishes_example =
    serve_finishes farewells two_shells (pos 41) two_shells-NodupPids refl farewells_alone
      farewells_leave

-- Both shells leave, and the last one stops the daemon, whichever it is.
leaving : All (λ c. Takes (request_of c)) (line (detach (pos 41)) ∷ line (detach (pos 42)) ∷ [])
unfolding request_of message display parse_i32 trim read_line
leaving = (tt, (tt, tt))

serve-Perm_example :
    SameShells
      (serve (line (detach (pos 41)) ∷ line (detach (pos 42)) ∷ []) two_shells)
      (serve (line (detach (pos 42)) ∷ line (detach (pos 41)) ∷ []) two_shells)
serve-Perm_example =
    serve-Perm (line (detach (pos 41)) ∷ line (detach (pos 42)) ∷ [])
      (line (detach (pos 42)) ∷ line (detach (pos 41)) ∷ []) two_shells two_shells-NodupPids
      ∣ Permᴰ.swap refl refl ∣₁ (inr leaving)
