-- ===== src/Daemon/Publish/Collision.antt =====
-- A load of src/daemon.rs whose first temporary file is the file for the messages.
use direnv_instant.Prelude.{ℕ, Text, ℤ, true, some, ◌∷◌, ◌≡◌, ◌≢◌, ◌∙◌, ap, All}
use direnv_instant.Daemon.Files.{Fs, put_self, create}
use direnv_instant.Daemon.Context.{DaemonContext}
use direnv_instant.Daemon.Pump.{start}
use direnv_instant.Daemon.Pump.Log.{received, IsWritten, log-copy_pty_to_logfile}
use direnv_instant.Daemon.Publish.{
  Load, exit_code, publish, publish_stderr, publish_env, write_exported, run_load,
}
use direnv_instant.Daemon.Publish.Stages.{
  Runs, rename_target, cleanup_other, copied, run_load-finished,
}

publish_env-content :
    (ctx : DaemonContext) (l : Load) (code : ℤ) (fs : Fs) (c : ℕ) (s : Text)
    → l.env_renamed ≡ true
    → fs ctx.temp_file ≡ some (c ∷ s)
    → publish_env ctx l code fs ctx.env_file ≡ some (c ∷ s)
unfolding publish_env
publish_env-content ctx l code fs c s ok e =
    rw (e, ok) (rename_target ctx.temp_file ctx.env_file fs e)

publish_stderr-content :
    (ctx : DaemonContext) (l : Load) (fs : Fs) (c : ℕ) (s : Text)
    → l.stderr_renamed ≡ true
    → fs ctx.temp_stderr ≡ some (c ∷ s)
    → publish_stderr ctx l fs ctx.stderr_file ≡ some (c ∷ s)
unfolding publish_stderr
publish_stderr-content ctx l fs c s ok e =
    rw (e, ok) (rename_target ctx.temp_stderr ctx.stderr_file fs e)

-- Where the first temporary file is the file for the messages, a load that writes to the pty publishes
-- its messages as the environment: the messages overwrite what direnv exported, and are then renamed
-- to the file that the shells evaluate.
pub run_load-collision :
    (mux_delay_ms : ℕ) (ctx : DaemonContext) (l : Load) (fs : Fs) (c : ℕ) (s : Text)
    → ctx.temp_file ≡ ctx.stderr_file
    → ctx.socket_path ≢ ctx.env_file
    → ctx.temp_file ≢ ctx.env_file
    → ctx.temp_stderr ≢ ctx.env_file
    → Runs mux_delay_ms ctx l true
    → l.stderr_renamed ≡ true
    → l.env_renamed ≡ true
    → All (λ r. IsWritten r.select) l.rounds
    → received l.rounds ≡ c ∷ s
    → (run_load mux_delay_ms ctx l fs).fs ctx.env_file ≡ some (c ∷ s)
unfolding publish
run_load-collision mux_delay_ms ctx l fs c s same d1 d2 d3 r ok ok' written messages =
    rw (run_load-finished mux_delay_ms ctx l fs r) (
      cleanup_other ctx ctx.env_file _ d1 d2 d3
      ∙ publish_env-content ctx l (exit_code l.wait) (publish_stderr ctx l before) c s ok' (
          ap (publish_stderr ctx l before) same
          ∙ publish_stderr-content ctx l before c s ok (
              put_self ctx.temp_stderr _
                (write_exported l.exported ctx.temp_file (create ctx.socket_path fs))
              ∙ ap some (
                  log-copy_pty_to_logfile mux_delay_ms ctx.multiplexer l.rounds start written
                  ∙ messages))))
  where
    before : Fs
    before = copied mux_delay_ms ctx l fs
