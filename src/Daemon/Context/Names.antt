-- ===== src/Daemon/Context/Names.antt =====
-- The names of the daemon's files in its runtime directory (src/daemon.rs).
use direnv_instant.Prelude.{
  ℕ, Text, codes, ℤ, true, false, Option, some, [], ◌∷◌, ◌++◌, ◌≡◌, ◌≢◌, refl, sym, subst,
  some-injective, Bool-cases, ne_of_text_eq, inl, inr,
}
use direnv_instant.Env.{Env}
use direnv_instant.Shell.{Shell}
use direnv_instant.Daemon.Files.{Fs, join, is_absolute, ends_in_separator}
use direnv_instant.Daemon.Context.{DaemonContext, new, create_temp_files}
use direnv_instant.Daemon.Publish.Stages.{IsDistinct}

append_cancel : (r x y : Text) → r ++ x ≡ r ++ y → x ≡ y
append_cancel [] x y e = e
append_cancel (c ∷ r) x y e = append_cancel r x y (cc)

-- Two names in one directory are two paths.
pub join-ne :
    (r x y : Text) → is_absolute x ≡ false → is_absolute y ≡ false → x ≢ y → join r x ≢ join r y
unfolding join
join-ne r x y h k n e = n (elim (Bool-cases (ends_in_separator r)) [
  | inl open_end ↦ append_cancel r x y (rw (h, k, open_end) at e)
  | inr closed ↦ cc (append_cancel r (b'/' ∷ x) (b'/' ∷ y) (rw (h, k, closed) at e))
])

-- The context after `create_temp_files`, if `mkstemp` answers `s` and `t`.
abbrev with_temp_files : Text → Text → DaemonContext → DaemonContext
with_temp_files s t ctx = record ctx {
  temp_file = join ctx.runtime_dir (codes "env." ++ s);
  temp_stderr = join ctx.runtime_dir (codes "env_stderr." ++ t);
}

-- The four fixed names, each in the runtime directory.
record IsNamed (ctx : DaemonContext) : Type 0 where
  socket : ctx.socket_path ≡ join ctx.runtime_dir (codes "daemon.sock")
  env : ctx.env_file ≡ join ctx.runtime_dir (codes "env")
  stderr : ctx.stderr_file ≡ join ctx.runtime_dir (codes "env.stderr")

IsNamed-IsDistinct :
    (s t : Text) (ctx : DaemonContext)
    → IsNamed ctx
    → s ≢ codes "stderr"
    → IsDistinct (with_temp_files s t ctx)
IsNamed-IsDistinct s t ctx n h = record {
  socket-temp_file = rw n.socket (join-ne ctx.runtime_dir _ _ refl refl (ne_of_text_eq _ _ refl));
  socket-temp_stderr = rw n.socket (join-ne ctx.runtime_dir _ _ refl refl (ne_of_text_eq _ _ refl));
  socket-env_file =
      rw (n.socket, n.env) (join-ne ctx.runtime_dir _ _ refl refl (ne_of_text_eq _ _ refl));
  socket-stderr_file =
      rw (n.socket, n.stderr) (join-ne ctx.runtime_dir _ _ refl refl (ne_of_text_eq _ _ refl));
  temp_file-temp_stderr = join-ne ctx.runtime_dir _ _ refl refl (ne_of_text_eq _ _ refl);
  temp_file-env_file = rw n.env (join-ne ctx.runtime_dir _ _ refl refl (ne_of_text_eq _ _ refl));
  temp_file-stderr_file = rw n.stderr (
      join-ne ctx.runtime_dir _ _ refl refl
        (λ e. h (append_cancel (codes "env.") s (codes "stderr") e)));
  temp_stderr-env_file = rw n.env (join-ne ctx.runtime_dir _ _ refl refl (ne_of_text_eq _ _ refl));
  temp_stderr-stderr_file =
      rw n.stderr (join-ne ctx.runtime_dir _ _ refl refl (ne_of_text_eq _ _ refl));
  env_file-stderr_file =
      rw (n.env, n.stderr) (join-ne ctx.runtime_dir _ _ refl refl (ne_of_text_eq _ _ refl));
}

module _ (dir_hash : Text → Option Text → ℕ) where
  new-IsNamed :
      (env : Env) (pid : ℤ) (dir : Text) (shell : Shell) {ctx : DaemonContext}
      → new dir_hash env true true pid dir shell ≡ some ctx
      → IsNamed ctx
  unfolding new
  new-IsNamed env pid dir shell e =
      subst IsNamed (some-injective _ _ e) (record { socket = refl; env = refl; stderr = refl })

  -- The six files of a daemon are six different paths in its runtime directory, as long as the letters
  -- that `mkstemp` chooses for the first temporary file are not `stderr`.
  pub new-IsDistinct :
      (env : Env) (pid : ℤ) (dir : Text) (shell : Shell) (s t : Text) (fs : Fs)
      {ctx ctx' : DaemonContext}
      → new dir_hash env true true pid dir shell ≡ some ctx
      → (create_temp_files (some s) (some t) ctx fs).0 ≡ some ctx'
      → s ≢ codes "stderr"
      → IsDistinct ctx'
  unfolding create_temp_files
  new-IsDistinct env pid dir shell s t fs {ctx} e e' h =
      subst IsDistinct (some-injective _ _ e')
        (IsNamed-IsDistinct s t ctx (new-IsNamed env pid dir shell e) h)

  -- With those letters the first temporary file is the file for the messages.
  pub new-collision :
      (env : Env) (pid : ℤ) (dir : Text) (shell : Shell) (t : Text) (fs : Fs)
      {ctx ctx' : DaemonContext}
      → new dir_hash env true true pid dir shell ≡ some ctx
      → (create_temp_files (some (codes "stderr")) (some t) ctx fs).0 ≡ some ctx'
      → ctx'.temp_file ≡ ctx'.stderr_file
  unfolding create_temp_files
  new-collision env pid dir shell t fs {ctx} e e' =
      subst (λ c. c.temp_file ≡ c.stderr_file) (some-injective _ _ e')
        (sym (new-IsNamed env pid dir shell e).stderr)
