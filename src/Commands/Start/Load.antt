-- ===== src/Commands/Start/Load.antt =====
-- A whole load: the prompt of src/commands/start.rs that starts a daemon, and what the daemon of
-- src/daemon.rs leaves in the file that the prompt has named to the shell.
use direnv_instant.Prelude.{
  ℕ, Text, codes, ℤ, Bool, true, false, Option, none, some, is_some, List, [], ◌∷◌, ◌++◌, ◌≡◌, ◌≢◌,
  ◌⊎◌, inl, inr, refl, sym, ap, subst, ◌∙◌, if◌then◌else◌, All, All-append, append_assoc,
  Bool-cases,
}
use direnv_instant.Env.{Env, var}
use direnv_instant.Shell.{Shell, bash, zsh, from_env, export_var}
use direnv_instant.Shell.Posix.{read_word, plain, export_var-read}
use direnv_instant.Mux.Detect.{detect}
use direnv_instant.Daemon.Files.{Fs, put_self, put_other, join, create}
use direnv_instant.Daemon.Context.{DaemonContext, new, create_temp_files}
use direnv_instant.Daemon.Context.Names.{new-IsDistinct}
use direnv_instant.Daemon.Publish.{Load, exit_code, run_direnv}
use direnv_instant.Daemon.Publish.Stages.{IsDistinct, Runs}
use direnv_instant.Daemon.Publish.Environment.{env_after, run_load-env_file}
use direnv_instant.Commands.{
  World, Event, print, daemonize, path_of, find_envrc, shell_pid, start_daemon, current_var,
  env_file_var, stderr_file_var,
}
use direnv_instant.Commands.Start.{
  run, run_as, run_for, run_direnv_sync, printed, detach_from, in_dir, with_context, join_or_start,
  is_at,
}

-- The context and the files behind `create_temp_files`, if `mkstemp` answers `s` and `t`.
abbrev temp_path : DaemonContext → Text → Text → Text
unfolding join
temp_path ctx prefix s = join ctx.runtime_dir (prefix ++ codes "." ++ s)

abbrev prepared : Text → Text → DaemonContext → DaemonContext
prepared s t ctx = record ctx {
  temp_file = temp_path ctx (codes "env") s;
  temp_stderr = temp_path ctx (codes "env_stderr") t;
}

abbrev with_files : Text → Text → DaemonContext → Fs → Fs
with_files s t ctx fs =
    create (temp_path ctx (codes "env_stderr") t) (create (temp_path ctx (codes "env") s) fs)

create_temp_files_lem :
    (s t : Text) (ctx : DaemonContext) (fs : Fs)
    → create_temp_files (some s) (some t) ctx fs ≡ (some (prepared s t ctx), with_files s t ctx fs)
unfolding create_temp_files
create_temp_files_lem s t ctx fs = refl

create_self : (path : Text) (fs : Fs) → create path fs path ≡ some []
unfolding create
create_self path fs = put_self path (some []) fs

create_other : (path q : Text) (fs : Fs) → path ≢ q → create path fs q ≡ fs q
unfolding create
create_other path q fs n = put_other path q (some []) fs n

module _ (s t : Text) (ctx : DaemonContext) (d : IsDistinct (prepared s t ctx)) (fs : Fs) where
  with_files-temp_file : with_files s t ctx fs (prepared s t ctx).temp_file ≡ some []
  with_files-temp_file =
      create_other _ _ _ (λ e. d.temp_file-temp_stderr (sym e)) ∙ create_self _ fs

  with_files-env_file : with_files s t ctx fs ctx.env_file ≡ fs ctx.env_file
  with_files-env_file =
      create_other _ _ _ d.temp_stderr-env_file ∙ create_other _ _ _ d.temp_file-env_file

  run_direnv-env_file :
      (mux_delay_ms : ℕ) (l : Load)
      → Runs mux_delay_ms ctx l true
      → l.env_renamed ≡ true
      → (run_direnv mux_delay_ms ctx (some s) (some t) l fs).fs ctx.env_file
        ≡ env_after l.exported (exit_code l.wait) (fs ctx.env_file)
  unfolding run_direnv
  run_direnv-env_file mux_delay_ms l r ok =
      run_load-env_file (prepared s t ctx) d l mux_delay_ms (with_files s t ctx fs)
        (record { bound = r.bound; forked = r.forked; log_created = r.log_created; loop = r.loop })
        ok with_files-temp_file
      ∙ ap (env_after l.exported (exit_code l.wait)) with_files-env_file

-- A line that assigns the value to the name, for bash and zsh.
abbrev pub Assigns : Text → Text → Text → Type 0
Assigns name value line =
    (word : Text) × (line ≡ codes "export " ++ (name ++ (codes "=" ++ word)))
    × (read_word plain word ≡ some value)

-- The last event starts the daemon, and before it a line assigns the value to the name.
abbrev pub TellsThenStarts : Text → Text → DaemonContext → List Event → Type 0
TellsThenStarts name value ctx es =
    (before between : List Event) × (line : Text) × (es
      ≡ before ++ (print line ∷ (between ++ daemonize ctx ∷ [])))
    × Assigns name value line
    × All (λ e. e ≢ daemonize ctx) before
    × All (λ e. e ≢ daemonize ctx) between

module _ (dir_hash : Text → Option Text → ℕ) where
  new-permitted :
      (env : Env) (made permitted : Bool) (pid : ℤ) (dir : Text) (shell : Shell)
      {ctx : DaemonContext}
      → new dir_hash env made permitted pid dir shell ≡ some ctx
      → new dir_hash env true true pid dir shell ≡ some ctx
  unfolding new
  new-permitted env true true pid dir shell e = e
  new-permitted env true false pid dir shell e = absurd (cc)
  new-permitted env false permitted pid dir shell e = absurd (cc)

module _ (dir_hash : Text → Option Text → ℕ) (w : World) (shell : Shell)
    (posix : (shell ≡ bash) ⊎ (shell ≡ zsh)) where
  -- What `printed` adds for a shell whose statements exist.
  printed_lem :
      (name value : Text) (rest : List Event)
      → (line word : Text) × (printed (export_var shell name value) rest ≡ print line ∷ rest)
        × (line ≡ codes "export " ++ (name ++ (codes "=" ++ word)))
        × (read_word plain word ≡ some value)
  printed_lem name value rest =
      let (line, word, e, spelled, reads) = export_var-read shell name value posix in
      (line, word, ap (λ o. printed o rest) e, spelled, reads)

  -- No daemon has the socket, and the first fork succeeds.
  pub record Starts (ctx : DaemonContext) (dir : List Text) : Type 0 where
    pub shell_is : from_env w.env ≡ shell
    pub found : find_envrc w.exists w.current_dir ≡ some dir
    pub multiplexed : is_some (detect w.env) ≡ true
    pub context : new dir_hash w.env w.made w.permitted (shell_pid w) (path_of dir) shell ≡ some ctx
    pub unused : w.exists ctx.socket_path ≡ false
    pub still_unused : w.still_exists ≡ false
    pub forks : w.forks ≡ true

  joined :
      (ctx : DaemonContext) (dir : List Text)
      → Starts ctx dir
      → join_or_start dir_hash w ctx ≡ daemonize ctx ∷ []
  unfolding join_or_start start_daemon
  joined ctx dir st = rw (st.unused, st.still_unused, st.forks)

  module _ (ctx : DaemonContext) (dir : List Text) (st : Starts ctx dir) where
    abbrev loaded : List Event
    loaded =
        printed (export_var shell current_var (path_of dir))
          (with_context dir_hash w shell (some ctx))

    in_dir-loaded : in_dir dir_hash w shell (some dir) ≡ loaded
    unfolding in_dir
    in_dir-loaded =
        ap (λ o. printed (export_var shell current_var (path_of dir)) o)
          (ap
              (λ b.
                if b
                then with_context dir_hash w shell
                    (new dir_hash w.env w.made w.permitted (shell_pid w) (path_of dir) shell)
                else run_direnv_sync w shell true)
              st.multiplexed
            ∙ ap (with_context dir_hash w shell) st.context)

    run_as_posix : run_as dir_hash w shell ≡ run_for dir_hash w shell
    unfolding run_as
    run_as_posix = elim posix [
      | inl e ↦ subst (λ sh. run_as dir_hash w sh ≡ run_for dir_hash w sh) (sym e) refl
      | inr e ↦ subst (λ sh. run_as dir_hash w sh ≡ run_for dir_hash w sh) (sym e) refl
    ]

    run-loaded :
        run dir_hash w ≡ detach_from dir_hash w (some dir) (var w.env current_var) ++ loaded
    unfolding run run_for
    run-loaded =
        ap (run_as dir_hash w) st.shell_is
        ∙ run_as_posix
        ∙ ap (λ d. detach_from dir_hash w d (var w.env current_var) ++ in_dir dir_hash w shell d)
            st.found
        ∙ ap (λ es. detach_from dir_hash w (some dir) (var w.env current_var) ++ es) in_dir-loaded

    detach_from-starts_nothing :
        (current : Option Text)
        → All (λ e. e ≢ daemonize ctx) (detach_from dir_hash w (some dir) current)
    unfolding detach_from
    detach_from-starts_nothing none = tt
    detach_from-starts_nothing (some current) = elim (Bool-cases (is_at (some dir) current)) [
      | inl here ↦ rw here tt
      | inr away ↦ rw away (λ e. cc, tt)
    ]

    run-TellsThenStarts : TellsThenStarts env_file_var ctx.env_file ctx (run dir_hash w)
    unfolding with_context
    run-TellsThenStarts =
        let left = detach_from dir_hash w (some dir) (var w.env current_var) in
        let (l1, w1, e1, s1, r1) = printed_lem current_var (path_of dir) _ in
        let (l2, w2, e2, s2, r2) = printed_lem env_file_var ctx.env_file _ in
        let (l3, w3, e3, s3, r3) = printed_lem stderr_file_var ctx.stderr_file _ in
        (
          left ++ print l1 ∷ [],
          print l3 ∷ [],
          l2,
          run-loaded
              ∙ ap (λ es. left ++ es)
                  (e1
                    ∙ ap (λ es. print l1 ∷ es)
                        (e2
                          ∙ ap (λ es. print l2 ∷ es)
                              (e3 ∙ ap (λ es. print l3 ∷ es) (joined ctx dir st))))
              ∙ sym (append_assoc left (print l1 ∷ []) _),
          (w2, s2, r2),
          All-append _ left (print l1 ∷ []) (detach_from-starts_nothing (var w.env current_var))
              (λ e. cc, tt),
          (λ e. cc, tt),
        )

    -- A prompt of bash or zsh that finds an .envrc, a multiplexer and no daemon, and whose runtime
    -- directory can be made and whose fork succeeds, first prints an assignment of a file and then,
    -- as the last thing it does, starts a daemon, the only one it starts for this context; and when
    -- that daemon gets its socket, child, log and temporary files and its load ends without being
    -- cancelled, this very file holds what direnv exported, at any exit status; with no export it
    -- is unchanged at status 0 and gone at any other. The letters of mkstemp are not "stderr", and
    -- the rename succeeds.
    pub run-run_direnv :
        (s t : Text) (fs : Fs) (mux_delay_ms : ℕ) (l : Load)
        → s ≢ codes "stderr"
        → Runs mux_delay_ms ctx l true
        → l.env_renamed ≡ true
        → (file : Text) × TellsThenStarts env_file_var file ctx (run dir_hash w)
          × ((run_direnv mux_delay_ms ctx (some s) (some t) l fs).fs file
              ≡ env_after l.exported (exit_code l.wait) (fs file))
    run-run_direnv s t fs mux_delay_ms l n r ok = (
      ctx.env_file,
      run-TellsThenStarts,
      run_direnv-env_file s t ctx
          (new-IsDistinct dir_hash w.env (shell_pid w) (path_of dir) shell s t fs
            (new-permitted dir_hash w.env w.made w.permitted (shell_pid w) (path_of dir) shell
              st.context)
            (ap (λ r. r.0) (create_temp_files_lem s t ctx fs)) n)
          fs mux_delay_ms l r ok,
    )
