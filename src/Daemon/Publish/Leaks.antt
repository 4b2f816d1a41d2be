-- ===== src/Daemon/Publish/Leaks.antt =====
-- Which of its own files the daemon of src/daemon.rs removes.
use direnv_instant.Prelude.{
  ℕ, Text, codes, true, false, none, some, [], ◌++◌, ◌≡◌, ◌≢◌, ◌⊎◌, inl, inr, refl, ◌∙◌, arith,
  text_eq_refl,
}
use direnv_instant.Daemon.Files.{Fs, put, put_self, put_other, join}
use direnv_instant.Daemon.Context.{DaemonContext, cleanup, create_temp_files}
use direnv_instant.Daemon.Publish.Environment.{write_exported_other}
use direnv_instant.Daemon.Publish.{
  Load, Result, End, running, returned, exit, panicked, drop_cleanup, run_load, run_direnv,
}

cleanup-gone :
    (ctx : DaemonContext) (fs : Fs)
    → (cleanup ctx fs ctx.socket_path ≡ none)
      × (cleanup ctx fs ctx.temp_file ≡ none)
      × (cleanup ctx fs ctx.temp_stderr ≡ none)
unfolding cleanup put
cleanup-gone ctx fs = (
  ground (arith, text_eq_refl ctx.socket_path),
  ground (arith, text_eq_refl ctx.temp_file),
  rw (text_eq_refl ctx.temp_stderr),
)

drop_cleanup-gone :
    (mux_delay_ms : ℕ) (ctx : DaemonContext) (r : Result) (e : End)
    → (e ≡ returned) ⊎ (e ≡ panicked)
    → let fs = (drop_cleanup mux_delay_ms ctx r e).fs in
      (fs ctx.socket_path ≡ none) × (fs ctx.temp_file ≡ none) × (fs ctx.temp_stderr ≡ none)
drop_cleanup-gone mux_delay_ms ctx r running (inl h) = cc
drop_cleanup-gone mux_delay_ms ctx r running (inr h) = cc
drop_cleanup-gone mux_delay_ms ctx r returned h = cleanup-gone ctx r.fs
drop_cleanup-gone mux_delay_ms ctx r (exit n) (inl h) = cc
drop_cleanup-gone mux_delay_ms ctx r (exit n) (inr h) = cc
drop_cleanup-gone mux_delay_ms ctx r panicked h = cleanup-gone ctx r.fs

drop_cleanup-end :
    (mux_delay_ms : ℕ) (ctx : DaemonContext) (r : Result) (e : End)
    → (drop_cleanup mux_delay_ms ctx r e).end ≡ r.end
drop_cleanup-end mux_delay_ms ctx r running = refl
drop_cleanup-end mux_delay_ms ctx r returned = refl
drop_cleanup-end mux_delay_ms ctx r (exit n) = refl
drop_cleanup-end mux_delay_ms ctx r panicked = refl

-- A daemon that returns, after a load or a cancelled one, or that panics leaves neither its socket nor
-- its temporary files behind.
pub run_load-gone :
    (mux_delay_ms : ℕ) (ctx : DaemonContext) (l : Load) (fs : Fs)
    → ((run_load mux_delay_ms ctx l fs).end ≡ returned)
      ⊎ ((run_load mux_delay_ms ctx l fs).end ≡ panicked)
    → let fs' = (run_load mux_delay_ms ctx l fs).fs in
      (fs' ctx.socket_path ≡ none) × (fs' ctx.temp_file ≡ none) × (fs' ctx.temp_stderr ≡ none)
unfolding run_load
run_load-gone mux_delay_ms ctx l fs h =
    drop_cleanup-gone mux_delay_ms ctx _ _ (rw drop_cleanup-end at h)

-- A daemon that ends by `exit` because it cannot create its log leaves its socket and both temporary
-- files where they are: `exit` does not run the guard that would remove them.
pub run_load-exit_leaks :
    (mux_delay_ms : ℕ) (ctx : DaemonContext) (l : Load) (fs : Fs)
    → l.bound ≡ true
    → l.forked ≡ true
    → l.log_created ≡ false
    → ctx.temp_file ≢ ctx.socket_path
    → ctx.temp_file ≢ ctx.temp_stderr
    → ctx.socket_path ≢ ctx.temp_stderr
    → fs ctx.temp_stderr ≡ some []
    → let r = run_load mux_delay_ms ctx l fs in
      (r.end ≡ exit 1) × (r.fs ctx.socket_path ≡ some []) × (r.fs ctx.temp_stderr ≡ some [])
unfolding run_load
run_load-exit_leaks mux_delay_ms ctx l fs bound forked no_log h k m made =
    rw (bound, forked, no_log)
      (
        refl,
        write_exported_other l.exported ctx.temp_file ctx.socket_path _ h
            ∙ put_self ctx.socket_path (some []) fs,
        write_exported_other l.exported ctx.temp_file ctx.temp_stderr _ k
            ∙ put_other ctx.socket_path ctx.temp_stderr (some []) fs m
            ∙ made,
      )

-- When the second `mkstemp` fails the first file stays: the guard does not exist yet.
pub run_direnv-mkstemp_leaks :
    (mux_delay_ms : ℕ) (ctx : DaemonContext) (suffix : Text) (l : Load) (fs : Fs)
    → let r = run_direnv mux_delay_ms ctx (some suffix) none l fs in
      (r.end ≡ exit 1)
      × (r.fs (join ctx.runtime_dir (codes "env" ++ codes "." ++ suffix)) ≡ some [])
unfolding run_direnv create_temp_files
run_direnv-mkstemp_leaks mux_delay_ms ctx suffix l fs =
    (refl, put_self (join ctx.runtime_dir (codes "env" ++ codes "." ++ suffix)) (some []) fs)
