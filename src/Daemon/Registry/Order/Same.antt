-- ===== src/Daemon/Registry/Order/Same.antt =====
-- States of the registry that hold the same shells, in any order.
use direnv_instant.Prelude.{
  ℤ, Bool, true, ◌||◌, Option, none, some, ◌≡◌, ◌⊎◌, refl, sym, ap, ◌∙◌, arith, Bool-cases, inl,
  inr,
}
use direnv_instant.Daemon.Protocol.{Request, notify, detach, stop, watch}
use direnv_instant.Daemon.Registry.{Shared, contains, register, unregister}
use direnv_instant.Daemon.Registry.Pids.{NodupPids}
use direnv_instant.Daemon.Registry.Requests.{apply}
use direnv_instant.Daemon.Registry.View.{
  apply?, apply?-members, member_after, unregister_absent, unregister_present,
}
use direnv_instant.Daemon.Registry.Stopping.{register-should_stop}
use direnv_instant.Daemon.Registry.Order.Flag.{
  takes_last, takes_last_eq, takes_last_comm, unregister-should_stop, unregister-notify_pids,
}

pub record SameShells (s t : Shared) : Type 0 where
  pub members : (q : ℤ) → contains s.notify_pids q ≡ contains t.notify_pids q
  pub flags : s.should_stop ≡ t.should_stop
  pub masters : s.pty_master ≡ t.pty_master

-- What a request makes of the state.
abbrev pub after : Option Request → Shared → Shared
after r s = (apply? r true s).0

register-pty_master : (p : ℤ) (s : Shared) → (register p s).pty_master ≡ s.pty_master
unfolding register
register-pty_master p s = ground arith

unregister-pty_master : (p : ℤ) (s : Shared) → (unregister p s).pty_master ≡ s.pty_master
unregister-pty_master p s = elim (Bool-cases (contains s.notify_pids p)) [
  | inl old ↦ ap (λ t. t.pty_master) (unregister_present p s old)
  | inr new ↦ ap (λ t. t.pty_master) (unregister_absent p s new)
]

after-pty_master : (r : Option Request) (s : Shared) → (after r s).pty_master ≡ s.pty_master
unfolding apply
after-pty_master none s = refl
after-pty_master (some (notify p)) s = register-pty_master p s
after-pty_master (some (detach p)) s = unregister-pty_master p s
after-pty_master (some stop) s = refl
after-pty_master (some watch) s = refl

-- The stop flag behind a request.
abbrev flag_after : Option Request → Shared → Bool
unfolding takes_last
flag_after none s = s.should_stop
flag_after (some (notify p)) s = s.should_stop
flag_after (some (detach p)) s = takes_last p s.notify_pids || s.should_stop
flag_after (some stop) s = true
flag_after (some watch) s = s.should_stop

after-should_stop : (r : Option Request) (s : Shared) → (after r s).should_stop ≡ flag_after r s
unfolding apply flag_after
after-should_stop none s = refl
after-should_stop (some (notify p)) s = register-should_stop p s
after-should_stop (some (detach p)) s = unregister-should_stop p s
after-should_stop (some stop) s = refl
after-should_stop (some watch) s = refl

flag_after_eq :
    (r : Option Request) (s t : Shared)
    → NodupPids s.notify_pids
    → NodupPids t.notify_pids
    → SameShells s t
    → flag_after r s ≡ flag_after r t
unfolding flag_after
flag_after_eq none s t ns nt h = h.flags
flag_after_eq (some (notify p)) s t ns nt h = h.flags
flag_after_eq (some (detach p)) s t ns nt h =
    rw (takes_last_eq p s.notify_pids t.notify_pids ns nt h.members, h.flags)
flag_after_eq (some stop) s t ns nt h = refl
flag_after_eq (some watch) s t ns nt h = h.flags

-- A request takes states with the same shells to states with the same shells.
pub after-SameShells :
    (r : Option Request) (s t : Shared)
    → NodupPids s.notify_pids
    → NodupPids t.notify_pids
    → SameShells s t
    → SameShells (after r s) (after r t)
after-SameShells r s t ns nt h = record {
  members = λ q.
      (apply?-members r true s ns).1 q
      ∙ ap (member_after r q) (h.members q)
      ∙ sym ((apply?-members r true t nt).1 q);
  flags = after-should_stop r s ∙ flag_after_eq r s t ns nt h ∙ sym (after-should_stop r t);
  masters = after-pty_master r s ∙ h.masters ∙ sym (after-pty_master r t);
}

-- A request that takes no shell away, and one that adds none.
abbrev pub Adds : Option Request → Type 0
Adds none = Unit
Adds (some (notify p)) = Unit
Adds (some (detach p)) = ⊥
Adds (some stop) = Unit
Adds (some watch) = Unit

abbrev pub Takes : Option Request → Type 0
Takes none = Unit
Takes (some (notify p)) = ⊥
Takes (some (detach p)) = Unit
Takes (some stop) = Unit
Takes (some watch) = Unit

abbrev pub Agree : Option Request → Option Request → Type 0
Agree r u = (Adds r × Adds u) ⊎ (Takes r × Takes u)

Agree-sym : (r u : Option Request) → Agree r u → Agree u r
Agree-sym r u (inl (a, b)) = inl (b, a)
Agree-sym r u (inr (a, b)) = inr (b, a)

clash : (p p' : ℤ) → ¬ Agree (some (notify p)) (some (detach p'))
clash p p' (inl (a, b)) = b
clash p p' (inr (a, b)) = a

member_after_comm :
    (r u : Option Request) (q : ℤ) (old : Bool)
    → Agree r u
    → member_after r q (member_after u q old) ≡ member_after u q (member_after r q old)
member_after_comm none u q old h = refl
member_after_comm (some stop) u q old h = refl
member_after_comm (some watch) u q old h = refl
member_after_comm (some (notify p)) none q old h = refl
member_after_comm (some (notify p)) (some stop) q old h = refl
member_after_comm (some (notify p)) (some watch) q old h = refl
member_after_comm (some (notify p)) (some (notify p')) q old h = ground arith
member_after_comm (some (notify p)) (some (detach p')) q old h = absurd (clash p p' h)
member_after_comm (some (detach p)) none q old h = refl
member_after_comm (some (detach p)) (some stop) q old h = refl
member_after_comm (some (detach p)) (some watch) q old h = refl
member_after_comm (some (detach p)) (some (notify p')) q old h =
    absurd (clash p' p (Agree-sym (some (detach p)) (some (notify p')) h))
member_after_comm (some (detach p)) (some (detach p')) q old h = ground arith

flag_after_set : (r : Option Request) (s : Shared) → s.should_stop ≡ true → flag_after r s ≡ true
unfolding flag_after
flag_after_set none s h = h
flag_after_set (some (notify p)) s h = h
flag_after_set (some (detach p)) s h = ground arith
flag_after_set (some stop) s h = refl
flag_after_set (some watch) s h = h

two_detaches :
    (p q : ℤ) (s : Shared)
    → flag_after (some (detach p)) (unregister q s) ≡ flag_after (some (detach q)) (unregister p s)
unfolding flag_after
two_detaches p q s =
    rw
      (
        unregister-notify_pids p s,
        unregister-notify_pids q s,
        unregister-should_stop p s,
        unregister-should_stop q s,
      )
      (ground (arith, takes_last_comm p q s.notify_pids))

flag_after_comm :
    (r u : Option Request) (s : Shared)
    → Agree r u
    → flag_after r (after u s) ≡ flag_after u (after r s)
unfolding flag_after apply
flag_after_comm none u s h = after-should_stop u s
flag_after_comm (some watch) u s h = after-should_stop u s
flag_after_comm (some stop) u s h = sym (flag_after_set u (record s { should_stop = true }) refl)
flag_after_comm (some (notify p)) none s h = sym (register-should_stop p s)
flag_after_comm (some (notify p)) (some stop) s h = refl
flag_after_comm (some (notify p)) (some watch) s h = sym (register-should_stop p s)
flag_after_comm (some (notify p)) (some (notify p')) s h =
    register-should_stop p' s ∙ sym (register-should_stop p s)
flag_after_comm (some (notify p)) (some (detach p')) s h = absurd (clash p p' h)
flag_after_comm (some (detach p)) none s h = sym (unregister-should_stop p s)
flag_after_comm (some (detach p)) (some stop) s h =
    flag_after_set (some (detach p)) (record s { should_stop = true }) refl
flag_after_comm (some (detach p)) (some watch) s h = sym (unregister-should_stop p s)
flag_after_comm (some (detach p)) (some (notify p')) s h =
    absurd (clash p' p (Agree-sym (some (detach p)) (some (notify p')) h))
flag_after_comm (some (detach p)) (some (detach p')) s h = two_detaches p p' s

-- Two requests that both add or both take give the same shells in either order.
pub after_comm :
    (r u : Option Request) (s : Shared)
    → NodupPids s.notify_pids
    → Agree r u
    → SameShells (after r (after u s)) (after u (after r s))
after_comm r u s n h = record {
  members = λ q.
      (apply?-members r true (after u s) (apply?-members u true s n).0).1 q
      ∙ ap (member_after r q) ((apply?-members u true s n).1 q)
      ∙ member_after_comm r u q (contains s.notify_pids q) h
      ∙ sym (ap (member_after u q) ((apply?-members r true s n).1 q))
      ∙ sym ((apply?-members u true (after r s) (apply?-members r true s n).0).1 q);
  flags =
      after-should_stop r (after u s)
      ∙ flag_after_comm r u s h
      ∙ sym (after-should_stop u (after r s));
  masters =
      after-pty_master r (after u s)
      ∙ after-pty_master u s
      ∙ sym (after-pty_master r s)
      ∙ sym (after-pty_master u (after r s));
}
