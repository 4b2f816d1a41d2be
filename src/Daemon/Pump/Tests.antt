-- ===== src/Daemon/Pump/Tests.antt =====
-- The loop of src/daemon.rs on concrete rounds.
use direnv_instant.Prelude.{codes, true, false, none, some, List, [], ◌∷◌, ◌++◌, ◌≡◌, refl, arith}
use direnv_instant.Mux.Detect.{tmux}
use direnv_instant.Daemon.Pump.{
  bytes, eio, Select, readable, quiet, Round, start, return, copy_pty_to_logfile,
}
use direnv_instant.Daemon.Pump.Log.{received, log-copy_pty_to_logfile}
use direnv_instant.Daemon.Pump.Busy.{copy_pty_to_logfile-busy, copy_pty_to_logfile-opens}

abbrev going : Select → Round
going s = record { stop = false; select = s }

-- Output, a silent round too early for a pane, output again.
abbrev early : List Round
early =
    going (readable (bytes (codes "a") 8192))
    ∷ going (quiet 100)
    ∷ going (readable (bytes (codes "bc") 8192))
    ∷ []

-- Silent after the delay, twice, and the end of the output.
abbrev slow : List Round
slow = early ++ going (quiet 4100) ∷ going (quiet 4200) ∷ going (readable eio) ∷ []

slow_load :
    copy_pty_to_logfile 4000 (some tmux) slow start
    ≡ (return true, record { total_bytes = 3; mux_spawned = true; log = codes "abc"; spawns = 1 })
unfolding copy_pty_to_logfile
slow_load = refl

log-copy_pty_to_logfile_example :
    (copy_pty_to_logfile 4000 none slow start).1.log ≡ [] ++ received slow
log-copy_pty_to_logfile_example = log-copy_pty_to_logfile 4000 none slow start (omega arith)

abbrev busy : List Round
busy = going (readable (bytes (codes "a") 8192)) ∷ going (readable (bytes (codes "b") 8192)) ∷ []

copy_pty_to_logfile-busy_example : (copy_pty_to_logfile 4000 (some tmux) busy start).1.spawns ≡ 0
copy_pty_to_logfile-busy_example =
    copy_pty_to_logfile-busy 4000 (some tmux) busy ((_, refl), ((_, refl), tt))

copy_pty_to_logfile-opens_example :
    (copy_pty_to_logfile 4000 (some tmux) (early ++ going (quiet 4100) ∷ slow) start).1.spawns ≡ 1
unfolding copy_pty_to_logfile
copy_pty_to_logfile-opens_example =
    copy_pty_to_logfile-opens 4000 (some tmux) early slow (going (quiet 4100)) 4100 refl (λ e. cc)
      (omega arith) refl refl (omega arith) (λ e. cc)
