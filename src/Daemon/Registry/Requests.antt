-- ===== src/Daemon/Registry/Requests.antt =====
-- What each request of a shell does to the registry, through the text of its message.
use direnv_instant.Prelude.{
  Text, codes, trim, trim-line, read_line, read_line-line, IsNumeral-ne_newline, display,
  display-IsNumeral, parse_i32, parse_i32-display, ℤ, IsI32, Bool, true, All, All-append, ◌≢◌, some,
  ◌++◌, append_assoc, ◌≡◌, refl, ap, ◌∙◌, arith,
}
use direnv_instant.Daemon.Protocol.{
  Request, notify, detach, stop, watch, message, notify_message, detach_message,
}
use direnv_instant.Daemon.Registry.{
  Shared, Reply, quiet, register, unregister, send_master, handle_line, handle_connection,
}

-- The requests as operations on the registry.
unfoldable pub apply : Request → Bool → Shared → Shared × Reply
apply (notify pid) sent s = (register pid s, quiet)
apply (detach pid) sent s = (unregister pid s, quiet)
apply stop sent s = (record s { should_stop = true }, quiet)
apply watch sent s = (s, send_master sent s.pty_master)

abbrev pub HasI32 : Request → Type 0
HasI32 (notify pid) = IsI32 pid
HasI32 (detach pid) = IsI32 pid
HasI32 stop = Unit
HasI32 watch = Unit

pub pid_of_line : (pid : ℤ) → IsI32 pid → parse_i32 (trim (display pid ++ codes "\n")) ≡ some pid
pid_of_line pid h = rw (trim-line _ (display-IsNumeral pid)) (parse_i32-display pid h)

-- The line that a pid makes behind a word with no line feed.
pub pid_line :
    (word : Text) (pid : ℤ) (rest : Text)
    → All (λ c. c ≢ b'\n') word
    → read_line (word ++ display pid ++ codes "\n" ++ rest) ≡ word ++ (display pid ++ codes "\n")
pid_line word pid rest h =
    read_line-line (word ++ display pid) rest
      (All-append _ word (display pid) h (IsNumeral-ne_newline _ (display-IsNumeral pid)))
    ∙ append_assoc word (display pid) (codes "\n")

handle_notify_line :
    (pid : ℤ) (sent : Bool) (s : Shared)
    → IsI32 pid
    → handle_line (codes "NOTIFY " ++ (display pid ++ codes "\n")) sent s ≡ (register pid s, quiet)
unfolding handle_line
handle_notify_line pid sent s h = rw (pid_of_line pid h)

handle_notify :
    (pid : ℤ) (rest : Text) (sent : Bool) (s : Shared)
    → IsI32 pid
    → handle_connection (some (notify_message pid ++ rest)) sent s ≡ (register pid s, quiet)
unfolding handle_connection notify_message
handle_notify pid rest sent s h =
    ap (λ line. handle_line line sent s) (pid_line (codes "NOTIFY ") pid rest (omega arith))
    ∙ handle_notify_line pid sent s h

handle_detach_line :
    (pid : ℤ) (sent : Bool) (s : Shared)
    → IsI32 pid
    → handle_line (codes "STOP " ++ (display pid ++ codes "\n")) sent s ≡ (unregister pid s, quiet)
unfolding handle_line
handle_detach_line pid sent s h = rw (pid_of_line pid h)

handle_detach :
    (pid : ℤ) (rest : Text) (sent : Bool) (s : Shared)
    → IsI32 pid
    → handle_connection (some (detach_message pid ++ rest)) sent s ≡ (unregister pid s, quiet)
unfolding handle_connection detach_message
handle_detach pid rest sent s h =
    ap (λ line. handle_line line sent s) (pid_line (codes "STOP ") pid rest (omega arith))
    ∙ handle_detach_line pid sent s h

-- The daemon reads back every request that a shell sends, whatever the client writes behind it: a
-- message of `notify_daemon`, `detach_daemon`, `stop_daemon` or `watch` takes effect as the request
-- that it stands for, with the pid that was printed into it.
pub handle_connection-message :
    (r : Request) (rest : Text) (sent : Bool) (s : Shared)
    → HasI32 r
    → handle_connection (some (message r ++ rest)) sent s ≡ apply r sent s
unfolding handle_connection apply message read_line
handle_connection-message (notify pid) rest sent s h = handle_notify pid rest sent s h
handle_connection-message (detach pid) rest sent s h = handle_detach pid rest sent s h
handle_connection-message stop rest sent s h = refl
handle_connection-message watch rest sent s h = refl
