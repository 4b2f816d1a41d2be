-- ===== src/Daemon/Registry/Stopping.antt =====
-- When the connections make the daemon stop.
use direnv_instant.Prelude.{
  Text, ℤ, int_eq, int_eq_iff, Bool, true, false, Option, none, some, List, [], ◌∷◌, ◌≡◌, ◌≢◌, ◌↔◌,
  refl, ap, arith, if◌then◌else◌, Bool-cases, inl, inr, All, Any,
}
use direnv_instant.Daemon.Protocol.{Request, notify, detach, stop, watch}
use direnv_instant.Daemon.Registry.{
  Shared, contains, is_empty, register, unregister, handle_connection, serve,
}
use direnv_instant.Daemon.Registry.Pids.{erase, NodupPids}
use direnv_instant.Daemon.Registry.Requests.{apply}
use direnv_instant.Daemon.Registry.View.{
  request_of, apply?, handle_connection-apply?, unregister_absent, unregister_present, member_after,
  handle_connection-members, Stops,
}

pub is_empty_iff : (pids : List ℤ) → (is_empty pids ≡ true) ↔ ((q : ℤ) → contains pids q ≡ false)
unfolding contains
is_empty_iff [] = (λ h q. refl, λ h. refl)
is_empty_iff (p ∷ pids) = (λ h. cc, λ h. ground (arith, h p, int_eq_iff p p))

pub register-should_stop : (pid : ℤ) (s : Shared) → (register pid s).should_stop ≡ s.should_stop
unfolding register
register-should_stop pid s = ground arith

module _ (pid : ℤ) (s : Shared) where
  unregister-Stops :
      (unregister pid s).should_stop ≡ true → Stops (some (detach pid)) s (unregister pid s)
  unregister-Stops h = elim (Bool-cases (contains s.notify_pids pid)) [
    | inl old ↦ last_one old (rw (unregister_present pid s old) at h)
    | inr new ↦ inl (rw (unregister_absent pid s new) at h)
  ]
    where
      last_one :
          contains s.notify_pids pid ≡ true
          → (if is_empty (erase pid s.notify_pids) then true else s.should_stop) ≡ true
          → Stops (some (detach pid)) s (unregister pid s)
      last_one old e = elim (Bool-cases (is_empty (erase pid s.notify_pids))) [
        | inl gone ↦
            rw (unregister_present pid s old)
              (inr (inr (pid, refl, old, (is_empty_iff (erase pid s.notify_pids)).0 gone)))
        | inr left ↦ inl (rw left at e)
      ]

  Stops-unregister :
      Stops (some (detach pid)) s (unregister pid s) → (unregister pid s).should_stop ≡ true
  Stops-unregister h = elim (Bool-cases (contains s.notify_pids pid)) [
    | inl old ↦ rw (unregister_present pid s old) (present (rw (unregister_present pid s old) at h))
    | inr new ↦ rw (unregister_absent pid s new) (absent (rw (unregister_absent pid s new) at h))
  ]
    where
      present :
          Stops (some (detach pid)) s (record s { notify_pids = erase pid s.notify_pids })
          → (if is_empty (erase pid s.notify_pids) then true else s.should_stop) ≡ true
      present (inl set) = ground arith
      present (inr (inl e)) = cc
      present (inr (inr (p, e, m, all))) =
          ground (arith, (is_empty_iff (erase pid s.notify_pids)).1 all)

      absent : Stops (some (detach pid)) s s → s.should_stop ≡ true
      absent (inl set) = set
      absent (inr (inl e)) = cc
      absent (inr (inr (p, e, m, all))) = cc (all p)

-- No other request stops the daemon.
Stops-other :
    (r : Option Request) (s t : Shared)
    → r ≢ some stop
    → ((p : ℤ) → r ≢ some (detach p))
    → Stops r s t
    → s.should_stop ≡ true
Stops-other r s t n d (inl set) = set
Stops-other r s t n d (inr (inl e)) = absurd (n e)
Stops-other r s t n d (inr (inr (p, e, m, all))) = absurd (d p e)

apply?-Stops :
    (r : Option Request) (sent : Bool) (s : Shared)
    → ((apply? r sent s).0.should_stop ≡ true) ↔ Stops r s (apply? r sent s).0
unfolding apply
apply?-Stops none sent s = (λ h. inl h, Stops-other none s s (λ e. cc) (λ p e. cc))
apply?-Stops (some (notify pid)) sent s = (
  λ h. inl (rw (register-should_stop pid s) at h),
  λ h.
      rw (register-should_stop pid s)
        (Stops-other (some (notify pid)) s (register pid s) (λ e. cc) (λ p e. cc) h),
)
apply?-Stops (some (detach pid)) sent s = (unregister-Stops pid s, Stops-unregister pid s)
apply?-Stops (some stop) sent s = (λ h. inr (inl refl), λ h. refl)
apply?-Stops (some watch) sent s = (λ h. inl h, Stops-other (some watch) s s (λ e. cc) (λ p e. cc))

-- A connection leaves the stop flag set exactly when it was set before, the client asked for a
-- stop with no pid, or the client detached a registered shell and no shell is registered any more.
pub handle_connection-Stops :
    (c : Option Text) (sent : Bool) (s : Shared)
    → ((handle_connection c sent s).0.should_stop ≡ true)
      ↔ Stops (request_of c) s (handle_connection c sent s).0
handle_connection-Stops c sent s =
    rw (handle_connection-apply? c sent s) (apply?-Stops (request_of c) sent s)

member_after_others :
    (r : Option Request) (p : ℤ) (old : Bool)
    → r ≢ some (detach p)
    → old ≡ true
    → member_after r p old ≡ true
member_after_others none p old h member = member
member_after_others (some (notify q)) p old h member = ground arith
member_after_others (some (detach q)) p old h member = elim (Bool-cases (int_eq q p)) [
  | inl same ↦ absurd (h (ap (λ x. some (detach x)) ((int_eq_iff q p).0 same)))
  | inr other ↦ ground arith
]
member_after_others (some stop) p old h member = member
member_after_others (some watch) p old h member = member

-- A step with a registered shell left over stops the daemon only on request.
not_Stops :
    (r : Option Request) (p : ℤ) (s t : Shared)
    → contains t.notify_pids p ≡ true
    → s.should_stop ≡ false
    → r ≢ some stop
    → ¬ Stops r s t
not_Stops r p s t still running no_stop (inl set) = cc
not_Stops r p s t still running no_stop (inr (inl e)) = no_stop e
not_Stops r p s t still running no_stop (inr (inr (q, e, m, all))) = cc (all p)

false_of_not_true : (b : Bool) → ¬ (b ≡ true) → b ≡ false
false_of_not_true true h = absurd (h refl)
false_of_not_true false h = refl

-- As long as a shell stays registered and nobody asks for a stop with no pid, the daemon is not
-- stopped: whatever connections arrive, malformed ones and detaches of other shells among them, a
-- shell that was registered and does not detach itself is still registered behind them.
pub serve_protects :
    (p : ℤ) (cs : List (Option Text)) (s : Shared)
    → NodupPids s.notify_pids
    → contains s.notify_pids p ≡ true
    → s.should_stop ≡ false
    → All (λ c. (request_of c ≢ some stop) × (request_of c ≢ some (detach p))) cs
    → ((serve cs s).should_stop ≡ false) × (contains (serve cs s).notify_pids p ≡ true)
unfolding serve
serve_protects p [] s nodup member running h = (running, member)
serve_protects p (c ∷ cs) s nodup member running ((no_stop, no_detach), hs) =
    let t = (handle_connection c true s).0 in
    let (nodup', members) = handle_connection-members c true s nodup in
    let member' : contains t.notify_pids p ≡ true =
      rw (members p) (member_after_others (request_of c) p _ no_detach member) in
    serve_protects p cs t nodup' member'
      (false_of_not_true t.should_stop (λ set.
        not_Stops (request_of c) p s t member' running no_stop
          ((handle_connection-Stops c true s).0 set)))
      hs

pub serve_stopped :
    (cs : List (Option Text)) (s : Shared) → s.should_stop ≡ true → (serve cs s).should_stop ≡ true
unfolding serve
serve_stopped [] s h = h
serve_stopped (c ∷ cs) s h =
    serve_stopped cs (handle_connection c true s).0 ((handle_connection-Stops c true s).1 (inl h))

member_after_no_notify :
    (r : Option Request) (q : ℤ) (old : Bool)
    → ((p : ℤ) → r ≢ some (notify p))
    → member_after r q old ≡ true
    → (old ≡ true) × (r ≢ some (detach q))
member_after_no_notify none q old h e = (e, λ x. cc)
member_after_no_notify (some (notify p)) q old h e = absurd (h p refl)
member_after_no_notify (some (detach p)) q old h e =
    (ground arith, λ x. ground (arith, int_eq_iff p q))
member_after_no_notify (some stop) q old h e = (e, λ x. cc)
member_after_no_notify (some watch) q old h e = (e, λ x. cc)

emptied_by : (r : Option Request) (q : ℤ) → member_after r q true ≡ false → r ≡ some (detach q)
emptied_by none q e = cc
emptied_by (some (notify p)) q e = ground arith
emptied_by (some (detach p)) q e = ap (λ x. some (detach x)) ((int_eq_iff p q).0 (ground arith))
emptied_by (some stop) q e = cc
emptied_by (some watch) q e = cc

some_member : (pids : List ℤ) → is_empty pids ≡ false → (q : ℤ) × (contains pids q ≡ true)
unfolding contains
some_member [] h = cc
some_member (p ∷ pids) h = (p, ground (arith, int_eq_iff p p))

-- A connection that leaves no shell, where there was one, has set the stop flag.
emptied_stops :
    (c : Option Text) (s : Shared) (q : ℤ)
    → NodupPids s.notify_pids
    → contains s.notify_pids q ≡ true
    → (handle_connection c true s).0.should_stop ≡ false
    → is_empty (handle_connection c true s).0.notify_pids ≡ false
emptied_stops c s q nodup member running =
    let t = (handle_connection c true s).0 in
    false_of_not_true (is_empty t.notify_pids) λ gone.
      let all = (is_empty_iff t.notify_pids).0 gone in
      let (nodup', members) = handle_connection-members c true s nodup in
      let was_last : request_of c ≡ some (detach q) =
        emptied_by (request_of c) q (rw (← member, ← members q) (all q)) in
      cc ((handle_connection-Stops c true s).1 (inr (inr (q, was_last, member, all))))

-- When every registered shell detaches and no other one registers, the daemon is told to stop, in
-- whatever order the detaches come and whatever other connections come between them.
pub serve_finishes :
    (cs : List (Option Text)) (s : Shared) (q : ℤ)
    → NodupPids s.notify_pids
    → contains s.notify_pids q ≡ true
    → All (λ c. (p : ℤ) → request_of c ≢ some (notify p)) cs
    → ((p : ℤ) → contains s.notify_pids p ≡ true → Any (λ c. request_of c ≡ some (detach p)) cs)
    → (serve cs s).should_stop ≡ true
unfolding serve
serve_finishes [] s q nodup member h leave = absurd (leave q member)
serve_finishes (c ∷ cs) s q nodup member (alone, hs) leave =
    elim (Bool-cases ((handle_connection c true s).0.should_stop)) [
      | inl set ↦ serve_stopped cs (handle_connection c true s).0 set
      | inr running ↦
          let t = (handle_connection c true s).0 in
          let (nodup', members) = handle_connection-members c true s nodup in
          let (q', member') =
            some_member t.notify_pids (emptied_stops c s q nodup member running) in
          serve_finishes cs t q' nodup' member' hs λ p m.
            let (old, no_detach) =
              member_after_no_notify (request_of c) p _ alone (rw (← members p) m) in
            later p no_detach (leave p old)
    ]
  where
    later :
        (p : ℤ)
        → request_of c ≢ some (detach p)
        → Any (λ c'. request_of c' ≡ some (detach p)) (c ∷ cs)
        → Any (λ c'. request_of c' ≡ some (detach p)) cs
    later p n (inl e) = absurd (n e)
    later p n (inr rest) = rest
