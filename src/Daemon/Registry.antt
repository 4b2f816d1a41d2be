-- ===== src/Daemon/Registry.antt =====
-- `handle_socket_commands` of src/daemon.rs: the state that the connection threads share with the
-- main thread, and what one connection does to it. Each thread changes the state once, under the
-- lock of `notify_pids` or by one atomic store, so a run of the threads is a sequence of calls.
pub mod Pids
pub mod Requests
pub mod View
pub mod Stopping
pub mod Order
pub mod Tests
use direnv_instant.Prelude.{
  ℕ, zero, suc, Text, codes, strip_prefix, trim, read_line, parse_i32, ℤ, int_eq, Bool, true, false,
  ◌||◌, Option, none, some, is_some, List, [], ◌∷◌, ◌++◌, if◌then◌else◌,
}

pub record Shared : Type 0 where
  pub notify_pids : List ℤ
  pub should_stop : Bool
  pub pty_master : Option ℕ  -- the descriptor, once the main thread has stored it

-- What the connection's client reads back.
pub data Reply : Type 0 where
  quiet : Reply  -- nothing is sent
  master : ℕ → Reply  -- `OK` with the descriptor attached
  unavailable : Reply  -- `ERR`
  lost : Reply  -- `sendmsg` failed, which is reported on the daemon's stderr

-- `pids.contains(&pid)`
unfoldable pub contains : List ℤ → ℤ → Bool
contains [] pid = false
contains (p ∷ pids) pid = int_eq p pid || contains pids pid

-- `pids.iter().position(|p| *p == pid)`
unfoldable pub position : ℤ → List ℤ → Option ℕ
position pid [] = none
position pid (p ∷ pids) =
    if int_eq p pid
    then some 0
    else elim (position pid pids) [ none ↦ none | some i ↦ some (suc i) ]

-- `pids.remove(i)`, for an index in range
unfoldable pub remove : ℕ → List ℤ → List ℤ
remove i [] = []
remove zero (p ∷ pids) = pids
remove (suc i) (p ∷ pids) = p ∷ remove i pids

abbrev pub is_empty : List ℤ → Bool
is_empty [] = true
is_empty (p ∷ pids) = false

-- `NOTIFY <pid>`
unfoldable pub register : ℤ → Shared → Shared
unfolding contains
register pid s =
    if contains s.notify_pids pid then s else record s { notify_pids = s.notify_pids ++ pid ∷ [] }

-- `STOP <pid>`: a pid that was never registered is ignored, and the last one to leave stops.
unfoldable pub unregister : ℤ → Shared → Shared
unfolding position remove
unregister pid s = elim (position pid s.notify_pids) [
  | none ↦ s
  | some i ↦
      let pids = remove i s.notify_pids in
      record s { notify_pids = pids; should_stop = if is_empty pids then true else s.should_stop }
]

-- `if let Ok(pid) = stripped.trim().parse::<i32>() { … }`
abbrev pub if_parsed : Option ℤ → (ℤ → Shared → Shared) → Shared → Shared
if_parsed none f s = s
if_parsed (some pid) f s = f pid s

-- `WATCH`; `sent` says whether `sendmsg` succeeds.
unfoldable pub send_master : Bool → Option ℕ → Reply
send_master sent none = if sent then unavailable else lost
send_master sent (some fd) = if sent then master fd else lost

-- The body of the thread behind `read_line`.
unfoldable pub handle_line : Text → Bool → Shared → Shared × Reply
unfolding register unregister send_master
handle_line line sent s = elim (strip_prefix (codes "NOTIFY ") line) [
  | some stripped ↦ (if_parsed (parse_i32 (trim stripped)) register s, quiet)
  | none ↦ elim (strip_prefix (codes "STOP ") line) [
    | some stripped ↦ (if_parsed (parse_i32 (trim stripped)) unregister s, quiet)
    | none ↦
        if is_some (strip_prefix (codes "STOP") line)
        then (record s { should_stop = true }, quiet)
        else if is_some (strip_prefix (codes "WATCH") line)
        then (s, send_master sent s.pty_master)
        else (s, quiet)
  ]
]

-- A connection: the text that the client wrote before it closed, or `none` where `read_line` fails
-- (bytes that are no UTF-8, or an error of the socket).
unfoldable pub handle_connection : Option Text → Bool → Shared → Shared × Reply
unfolding handle_line read_line
handle_connection none sent s = (s, quiet)
handle_connection (some text) sent s = handle_line (read_line text) sent s

-- The connections in the order in which their threads take effect.
unfoldable pub serve : List (Option Text) → Shared → Shared
unfolding handle_connection
serve [] s = s
serve (c ∷ cs) s = serve cs (handle_connection c true s).0

-- The state that `run_direnv` starts from: the shell that started the daemon, unless it is a nushell.
unfoldable pub initial : Bool → ℤ → Shared
initial is_nushell parent_pid = record {
  notify_pids = if is_nushell then [] else parent_pid ∷ [];
  should_stop = false;
  pty_master = none;
}
