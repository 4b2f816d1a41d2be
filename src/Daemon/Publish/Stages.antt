-- ===== src/Daemon/Publish/Stages.antt =====
-- The steps of a load of src/daemon.rs, one file at a time.
use direnv_instant.Prelude.{
  ℕ, Text, Bool, true, false, none, some, ◌∷◌, ◌++◌, ◌≡◌, ◌≢◌, ◌∙◌, arith, text_eq_iff,
  text_eq_refl,
}
use direnv_instant.Daemon.Files.{Fs, put, put_other, create, rename}
use direnv_instant.Daemon.Context.{DaemonContext, exited, cancelled, cleanup}
use direnv_instant.Daemon.Pump.{start, return, copy_pty_to_logfile}
use direnv_instant.Daemon.Publish.{
  Load, returned, terminate_child, exit_code, finish, write_exported, publish, run_load,
}

-- The six files of a daemon are six files.
pub record IsDistinct (ctx : DaemonContext) : Type 0 where
  pub socket-temp_file : ctx.socket_path ≢ ctx.temp_file
  pub socket-temp_stderr : ctx.socket_path ≢ ctx.temp_stderr
  pub socket-env_file : ctx.socket_path ≢ ctx.env_file
  pub socket-stderr_file : ctx.socket_path ≢ ctx.stderr_file
  pub temp_file-temp_stderr : ctx.temp_file ≢ ctx.temp_stderr
  pub temp_file-env_file : ctx.temp_file ≢ ctx.env_file
  pub temp_file-stderr_file : ctx.temp_file ≢ ctx.stderr_file
  pub temp_stderr-env_file : ctx.temp_stderr ≢ ctx.env_file
  pub temp_stderr-stderr_file : ctx.temp_stderr ≢ ctx.stderr_file
  pub env_file-stderr_file : ctx.env_file ≢ ctx.stderr_file

-- The daemon gets its socket, its child and its log, and the copy loop returns `done`.
pub record Runs (mux_delay_ms : ℕ) (ctx : DaemonContext) (l : Load) (done : Bool) : Type 0 where
  pub bound : l.bound ≡ true
  pub forked : l.forked ≡ true
  pub log_created : l.log_created ≡ true
  pub loop : (copy_pty_to_logfile mux_delay_ms ctx.multiplexer l.rounds start).0 ≡ return done

pub rename_other : (ok : Bool) (a b q : Text) (fs : Fs) → a ≢ q → b ≢ q → rename ok a b fs q ≡ fs q
unfolding rename
rename_other ok a b q fs h k = ground (arith, text_eq_iff a q, text_eq_iff b q)

pub rename_target :
    (a b : Text) (fs : Fs) {contents : Text}
    → fs a ≡ some contents
    → rename true a b fs b ≡ some contents
unfolding rename
rename_target a b fs h = ground (arith, text_eq_refl b)

pub cleanup_other :
    (ctx : DaemonContext) (q : Text) (fs : Fs)
    → ctx.socket_path ≢ q
    → ctx.temp_file ≢ q
    → ctx.temp_stderr ≢ q
    → cleanup ctx fs q ≡ fs q
unfolding cleanup
cleanup_other ctx q fs h k m =
    put_other ctx.temp_stderr q none _ m
    ∙ put_other ctx.temp_file q none _ k
    ∙ put_other ctx.socket_path q none fs h

-- The file system after the copy loop, from the one in which `run_load` starts.
abbrev pub copied : ℕ → DaemonContext → Load → Fs → Fs
copied mux_delay_ms ctx l fs =
    put ctx.temp_stderr
      (some (copy_pty_to_logfile mux_delay_ms ctx.multiplexer l.rounds start).1.log)
      (write_exported l.exported ctx.temp_file (create ctx.socket_path fs))

pub run_load-finished :
    (mux_delay_ms : ℕ) (ctx : DaemonContext) (l : Load) (fs : Fs)
    → Runs mux_delay_ms ctx l true
    → let (fs', effects) = publish ctx l (exit_code l.wait) (copied mux_delay_ms ctx l fs) in
      run_load mux_delay_ms ctx l fs ≡ record {
        end = returned;
        fs = cleanup ctx fs';
        effects = finish ctx.multiplexer (exited (exit_code l.wait)) ++ effects;
      }
unfolding run_load
run_load-finished mux_delay_ms ctx l fs r = rw (r.bound, r.forked, r.log_created, r.loop)

pub run_load-cancelled :
    (mux_delay_ms : ℕ) (ctx : DaemonContext) (l : Load) (fs : Fs)
    → Runs mux_delay_ms ctx l false
    → run_load mux_delay_ms ctx l fs ≡ record {
      end = returned;
      fs = cleanup ctx (copied mux_delay_ms ctx l fs);
      effects = terminate_child ∷ finish ctx.multiplexer cancelled;
    }
unfolding run_load
run_load-cancelled mux_delay_ms ctx l fs r = rw (r.bound, r.forked, r.log_created, r.loop)
