-- ===== src/Lib.antt =====
-- direnv-instant runs direnv in a background daemon, so that a shell's prompt comes back at once.
--
-- The program and its model. Paths are those of the repository.
--
-- * src/shell.rs prints the statements that a shell evaluates. Shell.antt has its functions as
--   functions from texts to the printed line; Shell/Posix.antt and Shell/Fish.antt have readers of a
--   quoted word, as bash and zsh and as fish read it, and what they find in those lines.
-- * src/mux.rs and src/mux/nvim.rs find the multiplexer, open panes and talk to Neovim.
--   Mux/Detect.antt has Multiplexer::detect, session_key and nvim::socket; Mux/Settings.antt has
--   mux_delay_ms and kitty_launch_args; Mux/Json.antt has json_get, parse_pane_id and
--   parse_pane_height; Mux/Spawn.antt has Multiplexer::spawn with spawn_herdr, herdr_split_ratio and
--   shell_quote, and spawn_request, spawn and finish of nvim.rs, each as the list of what it runs with
--   the error it returns; Mux/Nvim.antt has expression and escape_lua_string, Mux/Nvim/Lua.antt,
--   Vim.antt and Call.antt have readers of the Lua and Vim texts, and Mux/Nvim/Reply.antt has
--   wait_for_reply; Mux/Spawn/Neovim.antt puts the request, the readers and the wait together.
--   Shell/Words.antt has a reader that splits a line of a POSIX shell into words.
-- * src/daemon.rs is the daemon. Daemon/Protocol.antt has the messages of notify_daemon,
--   detach_daemon and stop_daemon, and the request of src/commands/watch.rs. Daemon/Registry.antt
--   has handle_socket_commands: `Shared` is the state under its locks, `handle_connection` the body
--   of a connection's thread, and `serve` a sequence of connections in the order in which they take
--   effect. Daemon/Files.antt has the file system as a function from paths to contents, and
--   Daemon/Context.antt get_runtime_dir, DaemonContext and Cleanup. Daemon/Pump.antt has
--   copy_pty_to_logfile, Daemon/Publish.antt parent_process and run_direnv, Daemon/Child.antt
--   child_process, and Daemon/Detach.antt the child's side of start_daemon. Daemon/Lifetime.antt has
--   the interleavings of the connections' threads with the phases of parent_process, as a step
--   relation `Step` and the states that it reaches, and Daemon/Lifetime/Loads.antt relates the loads of
--   Daemon/Publish.antt to them. Daemon/Registry/Order.antt has the registry without the order of
--   its pids, as a quotient.
-- * src/commands and src/nushell.rs are what a shell calls at each prompt and when it exits.
--   Commands.antt has what a run does (`Event`) and what its calls answer (`World`), and start_daemon
--   up to the first fork; Commands/Envrc.antt find_envrc and the comparison of paths;
--   Commands/Start.antt run and run_direnv_sync of start.rs, Commands/Stop.antt stop.rs,
--   Commands/Nushell.antt run and capture_direnv_export of nushell.rs, and Nushell.antt emit_record
--   and json_escape, for which Nushell/Json.antt and Record.antt have readers. Commands/Watch.antt has
--   the loop of watch.rs, and Commands/Watch/Session.antt the whole of its run: the wait for the log,
--   the request for the pty, raw mode and its guard, the loop and the end. Commands/Main.antt has the
--   dispatch of src/main.rs and hook.rs. Commands/Watch/Session/Pty.antt and Requests.antt put a watch
--   and the daemon together. Commands/Start/Load.antt puts a prompt and the load of the
--   daemon that it starts together.
-- * Env.antt has std::env, and Prelude.antt the texts, numbers and lists that all parts share.
--
-- How they interact. A shell that starts a load, or joins one, sends a message to the socket, which
-- changes the registry; the copy loop looks at the registry's stop flag in each round; at the end
-- parent_process publishes what the loop and the child left in the temporary files, signals the shells
-- in the registry and reports to Neovim; and the guard of run_direnv removes the daemon's own files.
--
-- Texts. A `str` is the list of its code points, and a file's contents are a list of numbers. Pids are
-- integers, and a theorem that needs it says that they are in the range of an i32. Sums and products
-- that wrap in a release build have their `% 2 ^ 64`.
--
-- Loops and fuel. A loop that waits for the world takes the list of what it meets: the rounds of the
-- copy loop and of the pane, the polls of wait_for_reply, the attempts to open the log. At the end of
-- the list it is still running, which is a value of its own, and the theorems on its end say which
-- rounds end it. The digits of a number take one more unit of fuel than the number, and each round
-- divides by ten or sixteen.
--
-- The world. Calls that can fail answer through arguments: the fields of `Load`, `World`, `Answers`,
-- `Session`, `Child` and `Calls`, the two answers of mkstemp, the results of create_dir_all and
-- set_permissions. The hash of DefaultHasher is a parameter, and so are the JSON parser, which is the
-- crate tinyjson (`Tinyjson`), and the arithmetic of f64 (`Float`). remove_file is taken to succeed
-- where a file stands, since the runtime directory is the user's own. A connection's thread changes the
-- shared state once, under a lock or by one atomic store, so the threads are a sequence; what the copy
-- loop loads from the stop flag is part of its rounds. The loop that signals the shells holds the lock
-- of the registry, so it is one step among those of the threads. In that relation the files and the pty
-- are left out, and whether there is something to show is a Boolean of the step.
--
-- Signals to a watch. The flag that ends the loop of watch.rs is that of SIGINT. With a pty the watch
-- turns off ISIG, so that ctrl-c is input like any other, which the loop forwards, and SIGINT can only
-- come from another process; without a pty ctrl-c sends it.
--
-- Not modelled: the installation of signal handlers and the calls of ioctl on the window size, which
-- are the flags and the counter of a round; the bytes that travel beside a descriptor on the socket; the
-- shell scripts that hook.rs prints, which are the fields of `Hooks`; the packaging and the tests.
pub mod Prelude
pub mod Env
pub mod Shell
pub mod Mux
pub mod Daemon
pub mod Nushell
pub mod Commands
