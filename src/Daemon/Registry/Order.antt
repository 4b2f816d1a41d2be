-- ===== src/Daemon/Registry/Order.antt =====
-- The registry of src/daemon.rs without the order of its pids, and connections whose threads take
-- effect in another order.
pub mod Flag
pub mod Same
use mathlib.Core.Logic.{∥∥₁_elim}
use mathlib.Core.List.{Perm, Permᴰ}
use mathlib.Core.List.Perm
use mathlib.Core.Quot
use mathlib.Core.Quot.{Quot, Quot-set}
use direnv_instant.Prelude.{
  ℕ, Text, ℤ, Bool, true, Option, List, [], ◌∷◌, ◌≡◌, ◌⊎◌, refl, sym, ap, subst, ◌∙◌, arith, All,
  inl, inr,
}
use direnv_instant.Daemon.Protocol.{Request}
use direnv_instant.Daemon.Registry.{Shared, contains, handle_connection, serve}
use direnv_instant.Daemon.Registry.Pids.{NodupPids}
use direnv_instant.Daemon.Registry.View.{
  request_of, apply?, handle_connection-apply?, handle_connection-NodupPids,
}
use direnv_instant.Daemon.Registry.Order.Same.{
  SameShells, after, after-SameShells, after_comm, Adds, Takes, Agree,
}

-- A state whose registry lists no pid twice.
abbrev pub Distinct : Type 0
Distinct = (s : Shared) × NodupPids s.notify_pids

abbrev pub Same : Distinct → Distinct → Type 0
Same (s, _) (t, _) = SameShells s t

-- The set of shells, the stop flag and the pty.
abbrev pub Registry : Type 0
Registry = Quot Same

abbrev pub of_distinct : Distinct → Registry
of_distinct = Quot.mk

abbrev handled : Option Text → Distinct → Distinct
handled c (s, n) = ((handle_connection c true s).0, handle_connection-NodupPids c true s n)

handled-Same : (c : Option Text) (s t : Distinct) → Same s t → Same (handled c s) (handled c t)
handled-Same c (s, n) (t, m) h =
    rw (handle_connection-apply? c true s, handle_connection-apply? c true t)
      (after-SameShells (request_of c) s t n m h)

-- A connection, on the registry without an order.
unfoldable connect : Option Text → Registry → Registry
connect c =
    Quot.lift Quot-set (λ s. of_distinct (handled c s)) (λ s t h. Quot.sound (handled-Same c s t h))

unfoldable connect_all : List (Option Text) → Registry → Registry
connect_all [] r = r
connect_all (c ∷ cs) r = connect_all cs (connect c r)

connect_comm :
    (c d : Option Text)
    → Agree (request_of c) (request_of d)
    → (r : Registry) → connect c (connect d r) ≡ connect d (connect c r)
unfolding connect
connect_comm c d h = Quot.ind (λ r. Quot-set _ _) (λ (s, n). Quot.sound (both s n))
  where
    both :
        (s : Shared) (n : NodupPids s.notify_pids)
        → Same (handled c (handled d (s, n))) (handled d (handled c (s, n)))
    both s n =
        rw
          (
            handle_connection-apply? c true (handle_connection d true s).0,
            handle_connection-apply? d true (handle_connection c true s).0,
            handle_connection-apply? c true s,
            handle_connection-apply? d true s,
          )
          (after_comm (request_of c) (request_of d) s n h)

-- What can be seen of the registry without an order.
has : ℤ → Registry → Bool
has q = Quot.lift (hlevel) (λ (s, _). contains s.notify_pids q) (λ s t h. h.members q)

stopping : Registry → Bool
stopping = Quot.lift (hlevel) (λ (s, _). s.should_stop) (λ s t h. h.flags)

master_of : Registry → Option ℕ
master_of = Quot.lift (hlevel) (λ (s, _). s.pty_master) (λ s t h. h.masters)

exact : (s t : Distinct) → of_distinct s ≡ of_distinct t → Same s t
unfolding has stopping master_of
exact s t h = record {
  members = λ q. ap (has q) h;
  flags = ap stopping h;
  masters = ap master_of h;
}

-- `serve` is what the connections do to the registry without an order.
serve-connect_all :
    (cs : List (Option Text)) (s : Shared) (n : NodupPids s.notify_pids)
    → (m : NodupPids (serve cs s).notify_pids) × (connect_all cs (of_distinct (s, n))
        ≡ of_distinct (serve cs s, m))
unfolding connect_all connect serve
serve-connect_all [] s n = (n, refl)
serve-connect_all (c ∷ cs) s n =
    serve-connect_all cs (handle_connection c true s).0 (handle_connection-NodupPids c true s n)

-- A kind of requests of which any two agree.
module _ (Kind : Option Request → Type 0)
    (agree : (r u : Option Request) → Kind r → Kind u → Agree r u) where
  abbrev OfKind : Option Text → Type 0
  OfKind c = Kind (request_of c)

  All-Permᴰ : (cs ds : List (Option Text)) → Permᴰ cs ds → All OfKind cs → All OfKind ds
  All-Permᴰ _ _ Permᴰ.nil h = h
  All-Permᴰ _ _ (Permᴰ.cons e p) (k, ks) = (subst OfKind e k, All-Permᴰ _ _ p ks)
  All-Permᴰ _ _ (Permᴰ.swap e f) (k, (l, ks)) = (subst OfKind f l, (subst OfKind e k, ks))
  All-Permᴰ _ _ (Permᴰ.trans p q) h = All-Permᴰ _ _ q (All-Permᴰ _ _ p h)

  connect_all-Permᴰ :
      (cs ds : List (Option Text))
      → Permᴰ cs ds
      → All OfKind cs
      → (r : Registry) → connect_all cs r ≡ connect_all ds r
  unfolding connect_all
  connect_all-Permᴰ _ _ Permᴰ.nil h r = refl
  connect_all-Permᴰ _ _ (Permᴰ.cons {a} {b} {l₂ = rest} e p) (k, ks) r =
      connect_all-Permᴰ _ _ p ks (connect a r) ∙ ap (λ c. connect_all rest (connect c r)) e
  connect_all-Permᴰ _ _ (Permᴰ.swap {a} {b} {a'} {b'} {l = rest} e f) (k, (l, ks)) r =
      ap (connect_all rest) (
        connect_comm b a (agree _ _ l k) r
        ∙ ap (λ c. connect a (connect c r)) f
        ∙ ap (λ c. connect c (connect a' r)) e)
  connect_all-Permᴰ _ _ (Permᴰ.trans p q) h r =
      connect_all-Permᴰ _ _ p h r ∙ connect_all-Permᴰ _ _ q (All-Permᴰ _ _ p h) r

  connect_all-Perm :
      (cs ds : List (Option Text))
      → Perm cs ds
      → All OfKind cs
      → (r : Registry) → connect_all cs r ≡ connect_all ds r
  connect_all-Perm cs ds p h r = ∥∥₁_elim p (Quot-set _ _) (λ q. connect_all-Permᴰ cs ds q h r)

  serve-OfKind :
      (cs ds : List (Option Text)) (s : Shared)
      → NodupPids s.notify_pids
      → Perm cs ds
      → All OfKind cs
      → SameShells (serve cs s) (serve ds s)
  serve-OfKind cs ds s n p h =
      let (m, e) = serve-connect_all cs s n in
      let (m', e') = serve-connect_all ds s n in
      exact (serve cs s, m) (serve ds s, m')
        (sym e ∙ connect_all-Perm cs ds p h (of_distinct (s, n)) ∙ e')

-- Connections of which none detaches a shell, or of which none adds one, leave the same shells, stop
-- flag and pty in whatever order their threads take effect.
pub serve-Perm :
    (cs ds : List (Option Text)) (s : Shared)
    → NodupPids s.notify_pids
    → Perm cs ds
    → All (λ c. Adds (request_of c)) cs ⊎ All (λ c. Takes (request_of c)) cs
    → SameShells (serve cs s) (serve ds s)
serve-Perm cs ds s n p (inl h) = serve-OfKind Adds (λ r u a b. inl (a, b)) cs ds s n p h
serve-Perm cs ds s n p (inr h) = serve-OfKind Takes (λ r u a b. inr (a, b)) cs ds s n p h
