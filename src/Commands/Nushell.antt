-- ===== src/Commands/Nushell.antt =====
-- `run` and `capture_direnv_export` of src/nushell.rs: the start command for Nushell.
use direnv_instant.Prelude.{
  ℕ, Text, codes, ℤ, Bool, true, false, ◌&&◌, Option, none, some, is_some, List, [], ◌∷◌, ◌++◌,
  if◌then◌else◌,
}
use direnv_instant.Env.{var}
use direnv_instant.Shell.{nushell}
use direnv_instant.Mux.Detect.{detect}
use direnv_instant.Daemon.Files.{join}
use direnv_instant.Daemon.Context.{DaemonContext, get_runtime_dir, get_socket_path, new}
use direnv_instant.Daemon.Protocol.{stop_message}
use direnv_instant.Nushell.{Field, emit_record}
use direnv_instant.Commands.{
  World, Event, print, complain, send, probe, capture_direnv, write_file, path_of, find_envrc,
  same_path, start_daemon, current_var, env_file_var, stderr_file_var,
}

abbrev pub target_or : Text → Option Text → Text
target_or file none = file
target_or file (some path) = path

abbrev written_to : World → Text → Text → List Event × Option Text
written_to w path stdout = (write_file path stdout ∷ [], if w.written then some path else none)

-- What `output` answers: the exit status and the standard output, or an error.
abbrev pub captured : World → Text → Option (Bool × Text) → List Event × Option Text
captured w path none = ([], none)
captured w path (some (success, [])) = ([], none)
captured w path (some (success, c ∷ stdout)) =
    if success then written_to w path (c ∷ stdout) else ([], none)

-- `capture_direnv_export`: what it does, and the path that it returns.
unfoldable pub capture_direnv_export : World → Bool → Option Text → List Event × Option Text
capture_direnv_export w show_errors target =
    let (events, path) = captured w (target_or w.temp_file target) w.output in
    (capture_direnv show_errors ∷ events, path)

-- `state.push` of the file, if there is one.
abbrev file_field : Option Text → List Field
file_field none = []
file_field (some path) = (env_file_var, some path) ∷ []

module _ (dir_hash : Text → Option Text → ℕ) where
  abbrev pub stop_other : World → List Text → Option Text → List Event
  stop_other w dir none = []
  stop_other w dir (some current) =
      if same_path current (path_of dir)
      then []
      else send (get_socket_path dir_hash w.env current) stop_message ∷ []

  -- In a multiplexer: the record is printed before the daemon is started.
  abbrev with_daemon : World → List Field → Option DaemonContext → List Event
  with_daemon w state none =
      complain (codes "direnv-instant: Failed to create runtime dir: ")
      ∷ print (emit_record state)
      ∷ []
  with_daemon w state (some ctx) =
      let line = print (
        emit_record (
          state
          ++ (env_file_var, some ctx.env_file) ∷ (stderr_file_var, some ctx.stderr_file) ∷ [])) in
      let tested = if w.exists ctx.socket_path then probe ctx.socket_path ∷ [] else [] in
      let started = start_daemon w ctx in
      tested ++ (line ∷ (if w.exists ctx.socket_path && w.reachable then [] else started))

  -- The directory of the file is made first, and an error of that call is ignored.
  abbrev without_multiplexer : World → List Text → List Field → List Event
  without_multiplexer w dir state =
      let file = join (get_runtime_dir dir_hash w.env (path_of dir)) (codes "env") in
      let (events, path) = capture_direnv_export w true (some file) in
      events ++ print (emit_record (state ++ file_field path)) ∷ []

  abbrev pub loading : World → ℤ → List Text → List Event
  loading w parent_pid dir =
      let state = (current_var, some (path_of dir)) ∷ [] in
      if is_some (detect w.env)
      then with_daemon w state
          (new dir_hash w.env w.made w.permitted parent_pid (path_of dir) nushell)
      else without_multiplexer w dir state

  abbrev pub in_envrc : World → ℤ → List Text → List Event
  in_envrc w parent_pid dir = stop_other w dir (var w.env current_var) ++ loading w parent_pid dir

  abbrev outside : World → List Event
  outside w =
      let (events, path) = capture_direnv_export w false none in
      events ++ print (emit_record ((current_var, none) ∷ file_field path)) ∷ []

  abbrev pub run_in : World → ℤ → Option (List Text) → List Event
  run_in w parent_pid none = outside w
  run_in w parent_pid (some dir) = in_envrc w parent_pid dir

  -- `run`
  unfoldable pub run_nushell : World → ℤ → List Event
  run_nushell w parent_pid = run_in w parent_pid (find_envrc w.exists w.current_dir)
