-- ===== src/Daemon/Registry/View.antt =====
-- The registry as a set of shells: which pids each connection adds and removes.
use direnv_instant.Prelude.{
  Text, codes, strip_prefix, trim, read_line, parse_i32, ℤ, int_eq, int_eq_iff, Bool, true, false,
  not, ◌&&◌, ◌||◌, Option, none, some, is_some, List, ◌≡◌, refl, arith, if◌then◌else◌, Bool-cases,
  inl, inr, ◌⊎◌,
}
use direnv_instant.Daemon.Protocol.{Request, notify, detach, stop, watch}
use direnv_instant.Daemon.Registry.{
  Shared, Reply, quiet, contains, is_empty, register, unregister, handle_line, handle_connection,
}
use direnv_instant.Daemon.Registry.Pids.{
  erase, NodupPids, contains-append, position_absent, position_present, contains-erase,
  erase-NodupPids, append-NodupPids,
}
use direnv_instant.Daemon.Registry.Requests.{apply}

-- The request that a line asks for, if it asks for one that the daemon knows.
unfoldable pub request_of_line : Text → Option Request
request_of_line line = elim (strip_prefix (codes "NOTIFY ") line) [
  | some stripped ↦ elim (parse_i32 (trim stripped)) [ none ↦ none | some pid ↦ some (notify pid) ]
  | none ↦ elim (strip_prefix (codes "STOP ") line) [
    | some stripped ↦ elim (parse_i32 (trim stripped)) [
      | none ↦ none
      | some pid ↦ some (detach pid)
    ]
    | none ↦
        if is_some (strip_prefix (codes "STOP") line)
        then some stop
        else if is_some (strip_prefix (codes "WATCH") line)
        then some watch
        else none
  ]
]

unfoldable pub request_of : Option Text → Option Request
unfolding request_of_line
request_of none = none
request_of (some text) = request_of_line (read_line text)

abbrev pub apply? : Option Request → Bool → Shared → Shared × Reply
apply? none sent s = (s, quiet)
apply? (some r) sent s = apply r sent s

handle_line-apply? :
    (line : Text) (sent : Bool) (s : Shared)
    → handle_line line sent s ≡ apply? (request_of_line line) sent s
unfolding handle_line request_of_line apply
handle_line-apply? line sent s = ground arith

pub handle_connection-apply? :
    (c : Option Text) (sent : Bool) (s : Shared)
    → handle_connection c sent s ≡ apply? (request_of c) sent s
unfolding handle_connection request_of
handle_connection-apply? none sent s = refl
handle_connection-apply? (some text) sent s = handle_line-apply? (read_line text) sent s

pub unregister_absent :
    (pid : ℤ) (s : Shared) → contains s.notify_pids pid ≡ false → unregister pid s ≡ s
unfolding unregister
unregister_absent pid s h = rw (position_absent s.notify_pids pid h, unregister)

pub unregister_present :
    (pid : ℤ) (s : Shared)
    → contains s.notify_pids pid ≡ true
    → unregister pid s ≡ record s {
      notify_pids = erase pid s.notify_pids;
      should_stop = if is_empty (erase pid s.notify_pids) then true else s.should_stop;
    }
unfolding unregister
unregister_present pid s h =
    let (i, found, gone) = position_present s.notify_pids pid h in ground arith

-- What a request makes of the membership of the shell `q`.
abbrev pub member_after : Option Request → ℤ → Bool → Bool
member_after none q old = old
member_after (some (notify p)) q old = int_eq p q || old
member_after (some (detach p)) q old = not (int_eq p q) && old
member_after (some stop) q old = old
member_after (some watch) q old = old

contains_same :
    (pids : List ℤ) (p q : ℤ)
    → contains pids p ≡ true
    → contains pids q ≡ (int_eq p q || contains pids q)
contains_same pids p q h = elim (Bool-cases (int_eq p q)) [
  | inl same ↦ rw (same, ← (int_eq_iff p q).0 same) h
  | inr other ↦ rw other
]

contains_other :
    (pids : List ℤ) (p q : ℤ)
    → contains pids p ≡ false
    → contains pids q ≡ (not (int_eq p q) && contains pids q)
contains_other pids p q h = elim (Bool-cases (int_eq p q)) [
  | inl same ↦ rw (same, ← (int_eq_iff p q).0 same) h
  | inr other ↦ rw other
]

register-members :
    (pid : ℤ) (s : Shared)
    → NodupPids s.notify_pids
    → NodupPids (register pid s).notify_pids
      × ((q : ℤ)
          → contains (register pid s).notify_pids q ≡ (int_eq pid q || contains s.notify_pids q))
unfolding register
register-members pid s nodup = elim (Bool-cases (contains s.notify_pids pid)) [
  | inl old ↦ rw old (nodup, λ q. contains_same s.notify_pids pid q old)
  | inr new ↦
      rw new
        (append-NodupPids s.notify_pids pid new nodup, λ q. contains-append s.notify_pids pid q)
]

unregister-members :
    (pid : ℤ) (s : Shared)
    → NodupPids s.notify_pids
    → NodupPids (unregister pid s).notify_pids
      × ((q : ℤ)
          → contains (unregister pid s).notify_pids q
            ≡ (not (int_eq pid q) && contains s.notify_pids q))
unregister-members pid s nodup = elim (Bool-cases (contains s.notify_pids pid)) [
  | inl old ↦
      rw (unregister_present pid s old)
        (erase-NodupPids s.notify_pids pid nodup, λ q. contains-erase s.notify_pids pid q nodup)
  | inr new ↦ rw (unregister_absent pid s new) (nodup, λ q. contains_other s.notify_pids pid q new)
]

pub apply?-members :
    (r : Option Request) (sent : Bool) (s : Shared)
    → NodupPids s.notify_pids
    → NodupPids (apply? r sent s).0.notify_pids
      × ((q : ℤ)
          → contains (apply? r sent s).0.notify_pids q
            ≡ member_after r q (contains s.notify_pids q))
unfolding apply
apply?-members none sent s nodup = (nodup, λ q. refl)
apply?-members (some (notify pid)) sent s nodup = register-members pid s nodup
apply?-members (some (detach pid)) sent s nodup = unregister-members pid s nodup
apply?-members (some stop) sent s nodup = (nodup, λ q. refl)
apply?-members (some watch) sent s nodup = (nodup, λ q. refl)

pub handle_connection-members :
    (c : Option Text) (sent : Bool) (s : Shared)
    → NodupPids s.notify_pids
    → NodupPids (handle_connection c sent s).0.notify_pids
      × ((q : ℤ)
          → contains (handle_connection c sent s).0.notify_pids q
            ≡ member_after (request_of c) q (contains s.notify_pids q))
handle_connection-members c sent s nodup =
    rw (handle_connection-apply? c sent s) (apply?-members (request_of c) sent s nodup)

-- No connection lists a pid twice, so each shell is signalled once.
pub handle_connection-NodupPids :
    (c : Option Text) (sent : Bool) (s : Shared)
    → NodupPids s.notify_pids
    → NodupPids (handle_connection c sent s).0.notify_pids
handle_connection-NodupPids c sent s nodup = (handle_connection-members c sent s nodup).0

-- The registry is a set of shells: a connection adds the shell that it notifies for, removes the
-- shell that it detaches, and leaves every other shell as it was; a line that is no request, or that
-- names no pid, changes nothing.
pub contains-handle_connection :
    (c : Option Text) (sent : Bool) (s : Shared) (q : ℤ)
    → NodupPids s.notify_pids
    → contains (handle_connection c sent s).0.notify_pids q
      ≡ member_after (request_of c) q (contains s.notify_pids q)
contains-handle_connection c sent s q nodup = (handle_connection-members c sent s nodup).1 q

-- What makes a request stop the daemon: it asks for that, or it takes the last shell away.
abbrev pub Stops : Option Request → Shared → Shared → Type 0
Stops r s t =
    (s.should_stop ≡ true)
    ⊎ (r ≡ some stop)
    ⊎ ((p : ℤ) × (r ≡ some (detach p))
        × (contains s.notify_pids p ≡ true)
        × ((q : ℤ) → contains t.notify_pids q ≡ false))
