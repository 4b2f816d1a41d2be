-- ===== src/Daemon/Publish/Environment.antt =====
-- What a load of src/daemon.rs leaves in the files.
use direnv_instant.Prelude.{
  ℕ, Text, ℤ, pos, int_eq, true, false, Option, none, some, [], ◌∷◌, if◌then◌else◌, ◌≡◌, ◌≢◌, refl,
  sym, ◌∙◌, arith, All, ap,
}
use direnv_instant.Daemon.Files.{Fs, put_self, put_other, create}
use direnv_instant.Daemon.Context.{DaemonContext}
use direnv_instant.Daemon.Pump.{start}
use direnv_instant.Daemon.Pump.Log.{received, IsWritten, log-copy_pty_to_logfile}
use direnv_instant.Daemon.Publish.{
  Load, exit_code, publish, publish_stderr, publish_env, write_exported, run_load,
}
use direnv_instant.Daemon.Publish.Stages.{
  IsDistinct, Runs, rename_other, rename_target, cleanup_other, copied, run_load-finished,
  run_load-cancelled,
}

-- What becomes of the cached environment: a new one replaces it, a load that failed and exported
-- nothing takes it away, and a load that succeeded and exported nothing leaves it.
abbrev pub env_after : Option Text → ℤ → Option Text → Option Text
env_after (some (c ∷ s)) code old = some (c ∷ s)
env_after (some []) code old = if int_eq code (pos 0) then old else none
env_after none code old = if int_eq code (pos 0) then old else none

-- What becomes of the last load's messages: those of this load replace them, if there are any.
abbrev pub stderr_after : Text → Option Text → Option Text
stderr_after [] old = old
stderr_after (c ∷ s) old = some (c ∷ s)

-- The temporary file after the child: `mkstemp` has made it, empty.
abbrev pub temp_after : Option Text → Option Text
temp_after none = some []
temp_after (some s) = some s

env_after-temp_after :
    (exported : Option Text) (code : ℤ) (old : Option Text)
    → env_after (temp_after exported) code old ≡ env_after exported code old
env_after-temp_after none code old = refl
env_after-temp_after (some []) code old = refl
env_after-temp_after (some (c ∷ s)) code old = refl

pub write_exported_other :
    (exported : Option Text) (path q : Text) (fs : Fs)
    → path ≢ q
    → write_exported exported path fs q ≡ fs q
write_exported_other none path q fs h = refl
write_exported_other (some s) path q fs h = put_other path q (some s) fs h

write_exported_self :
    (exported : Option Text) (path : Text) (fs : Fs)
    → fs path ≡ some []
    → write_exported exported path fs path ≡ temp_after exported
write_exported_self none path fs h = h
write_exported_self (some s) path fs h = put_self path (some s) fs

create_other : (path q : Text) (fs : Fs) → path ≢ q → create path fs q ≡ fs q
unfolding create
create_other path q fs h = put_other path q (some []) fs h

module _ (ctx : DaemonContext) (d : IsDistinct ctx) (l : Load) where
  pub publish_stderr_other :
      (fs : Fs) (q : Text)
      → ctx.temp_stderr ≢ q
      → ctx.stderr_file ≢ q
      → publish_stderr ctx l fs q ≡ fs q
  unfolding publish_stderr
  publish_stderr_other fs q h k =
      ground (arith, rename_other l.stderr_renamed ctx.temp_stderr ctx.stderr_file q fs h k)

  publish_env-env_file :
      (code : ℤ) (fs : Fs) (file : Option Text)
      → l.env_renamed ≡ true
      → fs ctx.temp_file ≡ file
      → publish_env ctx l code fs ctx.env_file ≡ env_after file code (fs ctx.env_file)
  unfolding publish_env
  publish_env-env_file code fs none ok e = ground (arith, put_self ctx.env_file none fs)
  publish_env-env_file code fs (some []) ok e = ground (arith, put_self ctx.env_file none fs)
  publish_env-env_file code fs (some (c ∷ s)) ok e =
      rw (e, ok) (rename_target ctx.temp_file ctx.env_file fs e)

  copied_other :
      (mux_delay_ms : ℕ) (fs : Fs) (q : Text)
      → ctx.socket_path ≢ q
      → ctx.temp_file ≢ q
      → ctx.temp_stderr ≢ q
      → copied mux_delay_ms ctx l fs q ≡ fs q
  copied_other mux_delay_ms fs q h k m =
      put_other ctx.temp_stderr q _ _ m
      ∙ write_exported_other l.exported ctx.temp_file q _ k
      ∙ create_other ctx.socket_path q fs h

  pub copied_temp_file :
      (mux_delay_ms : ℕ) (fs : Fs)
      → fs ctx.temp_file ≡ some []
      → copied mux_delay_ms ctx l fs ctx.temp_file ≡ temp_after l.exported
  copied_temp_file mux_delay_ms fs made =
      put_other ctx.temp_stderr ctx.temp_file _ _ (λ e. d.temp_file-temp_stderr (sym e))
      ∙ write_exported_self l.exported ctx.temp_file _
          (create_other ctx.socket_path ctx.temp_file fs d.socket-temp_file ∙ made)

  pub copied_temp_stderr :
      (mux_delay_ms : ℕ) (fs : Fs)
      → All (λ r. IsWritten r.select) l.rounds
      → copied mux_delay_ms ctx l fs ctx.temp_stderr ≡ some (received l.rounds)
  copied_temp_stderr mux_delay_ms fs written =
      put_self ctx.temp_stderr _
        (write_exported l.exported ctx.temp_file (create ctx.socket_path fs))
      ∙ ap some (log-copy_pty_to_logfile mux_delay_ms ctx.multiplexer l.rounds start written)

  -- After a load that was not cancelled the environment file holds what direnv exported, at any
  -- exit status; with no export it is unchanged at status 0 and gone at any other. The rename of
  -- the environment succeeds, the daemon gets its socket, child and log, the six files are
  -- different paths and the first temporary file was created empty.
  pub run_load-env_file :
      (mux_delay_ms : ℕ) (fs : Fs)
      → Runs mux_delay_ms ctx l true
      → l.env_renamed ≡ true
      → fs ctx.temp_file ≡ some []
      → (run_load mux_delay_ms ctx l fs).fs ctx.env_file
        ≡ env_after l.exported (exit_code l.wait) (fs ctx.env_file)
  unfolding publish
  run_load-env_file mux_delay_ms fs r ok made =
      let code = exit_code l.wait in
      let before = copied mux_delay_ms ctx l fs in
      rw (run_load-finished mux_delay_ms ctx l fs r) (
        cleanup_other ctx ctx.env_file _ d.socket-env_file d.temp_file-env_file
          d.temp_stderr-env_file
        ∙ publish_env-env_file code (publish_stderr ctx l before) (temp_after l.exported) ok (
            publish_stderr_other before ctx.temp_file (λ e. d.temp_file-temp_stderr (sym e))
              (λ e. d.temp_file-stderr_file (sym e))
            ∙ copied_temp_file mux_delay_ms fs made)
        ∙ env_after-temp_after l.exported code _
        ∙ ap (env_after l.exported code) (
            publish_stderr_other before ctx.env_file d.temp_stderr-env_file
              (λ e. d.env_file-stderr_file (sym e))
            ∙ copied_other mux_delay_ms fs ctx.env_file d.socket-env_file d.temp_file-env_file
                d.temp_stderr-env_file))

  -- A cancelled load changes no file: every file but the socket and the two temporary ones is as it was,
  -- the cached environment and the last messages among them.
  pub run_load-cancelled_keeps :
      (mux_delay_ms : ℕ) (fs : Fs) (q : Text)
      → Runs mux_delay_ms ctx l false
      → ctx.socket_path ≢ q
      → ctx.temp_file ≢ q
      → ctx.temp_stderr ≢ q
      → (run_load mux_delay_ms ctx l fs).fs q ≡ fs q
  run_load-cancelled_keeps mux_delay_ms fs q r h k m =
      rw (run_load-cancelled mux_delay_ms ctx l fs r)
        (cleanup_other ctx q _ h k m ∙ copied_other mux_delay_ms fs q h k m)
