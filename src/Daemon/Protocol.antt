-- ===== src/Daemon/Protocol.antt =====
-- The messages that shells write to the daemon's socket (src/daemon.rs, src/commands/watch.rs).
use direnv_instant.Prelude.{Text, codes, ◌++◌, ℤ, display}

-- What one shell asks of the daemon.
pub data Request : Type 0 where
  notify : ℤ → Request
  detach : ℤ → Request
  stop : Request
  watch : Request

-- `notify_daemon`
unfoldable pub notify_message : ℤ → Text
notify_message shell_pid = codes "NOTIFY " ++ display shell_pid ++ codes "\n"

-- `detach_daemon`
unfoldable pub detach_message : ℤ → Text
detach_message shell_pid = codes "STOP " ++ display shell_pid ++ codes "\n"

-- `stop_daemon`
unfoldable pub stop_message : Text
stop_message = codes "STOP\n"

-- The request that `watch` makes for the master side of the pty.
unfoldable pub watch_message : Text
watch_message = codes "WATCH\n"

unfoldable pub message : Request → Text
unfolding notify_message detach_message stop_message watch_message
message (notify pid) = notify_message pid
message (detach pid) = detach_message pid
message stop = stop_message
message watch = watch_message
