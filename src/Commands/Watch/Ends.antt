-- ===== src/Commands/Watch/Ends.antt =====
-- How the loop of src/commands/watch.rs ends: on SIGINT, and when the daemon closes the socket.
use direnv_instant.Prelude.{
  Text, Bool, true, false, Option, none, some, List, [], ◌∷◌, ◌++◌, append_assoc, append-nil, ◌≡◌,
  refl, sym, ap, subst, ◌∙◌, arith, if◌then◌else◌,
}
use direnv_instant.Daemon.Registry.{Shared, serve}
use direnv_instant.Commands.Start.Others.{received_at}
use direnv_instant.Commands.Start.Directory.{serve_first}
use direnv_instant.Commands.Watch.{
  Reading, Answer, eintr, failed, ready, Round, Pane, Next, continue, broken, cancelled, drain,
  text_of, on_socket, on_stdin, on_select, watch_round, watch, after_watch, propagate, show,
}

-- The pane after rounds that all go on.
abbrev pub Continues : Bool → List Round → Pane → Pane → Type 0
Continues has_pty [] p t = p ≡ t
Continues has_pty (r ∷ rs) p t =
    (q : Pane) × (watch_round has_pty r p ≡ continue q) × Continues has_pty rs q t

module _ (has_pty : Bool) where
  watch-append :
      (rs more : List Round) (p q : Pane)
      → Continues has_pty rs p q
      → watch has_pty (rs ++ more) p ≡ watch has_pty more q
  unfolding watch
  watch-append [] more p q h = ap (watch has_pty more) h
  watch-append (r ∷ rs) more p t (q, e, h) = rw (watch, e) (watch-append rs more q t h)

  watch-interrupted :
      (r : Round) (rs : List Round) (p : Pane)
      → r.interrupted ≡ true
      → watch has_pty (r ∷ rs) p ≡ cancelled p
  unfolding watch watch_round
  watch-interrupted r rs p h = rw (h) refl

  pub watch-cancelled :
      (rs : List Round) (r : Round) (more : List Round) (p q : Pane)
      → Continues has_pty rs p q
      → r.interrupted ≡ true
      → watch has_pty (rs ++ r ∷ more) p ≡ cancelled q
  watch-cancelled rs r more p q h i =
      watch-append rs (r ∷ more) p q h ∙ watch-interrupted r more q i

  -- After rounds that all go on, SIGINT makes the pane stop the daemon, whatever shells are
  -- registered with it and whatever would come later.
  pub watch-Continues :
      (rs : List Round) (r : Round) (more : List Round) (p q : Pane) (path : Text) (late : Bool)
      (s : Shared)
      → Continues has_pty rs p q
      → r.interrupted ≡ true
      → (serve
          (received_at path (after_watch path late (watch has_pty (rs ++ r ∷ more) p)))
          s).should_stop
        ≡ true
  unfolding after_watch
  watch-Continues rs r more p q path late s h i =
      serve_first path (after_watch path late (watch has_pty (rs ++ r ∷ more) p)) [] s
        (ap (after_watch path late) (watch-cancelled rs r more p q h i))

-- What a round that goes on reads of the log.
abbrev pub read_in : Round → Text
read_in r = elim (r.select) [ eintr ↦ [] | failed ↦ [] | ready stdin socket ↦ text_of r.log ]

abbrev pub logs : List Round → Text
logs [] = []
logs (r ∷ rs) = read_in r ++ logs rs

abbrev ShownBy : Next → Text → Text → Type 0
ShownBy (continue q) old s = q.shown ≡ old ++ s
ShownBy (broken q) old s = Unit
ShownBy (cancelled q) old s = Unit

on_socket-ShownBy :
    (r : Round) (socket : Option Reading) (p : Pane)
    → ShownBy (on_socket r socket p) p.shown (text_of r.log)
unfolding on_socket
on_socket-ShownBy r none p = refl
on_socket-ShownBy r (some none) p = tt
on_socket-ShownBy r (some (some [])) p = tt
on_socket-ShownBy r (some (some (c ∷ s))) p = refl

on_stdin-ShownBy :
    (r : Round) (stdin socket : Option Reading) (p : Pane)
    → ShownBy (on_stdin r stdin socket p) p.shown (text_of r.log)
unfolding on_stdin
on_stdin-ShownBy r none socket p = on_socket-ShownBy r socket p
on_stdin-ShownBy r (some none) socket p = on_socket-ShownBy r socket p
on_stdin-ShownBy r (some (some [])) socket p = tt
on_stdin-ShownBy r (some (some (c ∷ s))) socket p =
    on_socket-ShownBy r socket (record p { forwarded = p.forwarded ++ (c ∷ s) })

module _ (has_pty : Bool) where
  on_select-ShownBy :
      (r : Round) (a : Answer) (p : Pane)
      → ShownBy
          (on_select has_pty r a p)
          p.shown
          (elim a [ eintr ↦ [] | failed ↦ [] | ready stdin socket ↦ text_of r.log ])
  unfolding on_select
  on_select-ShownBy r eintr p = sym (append-nil p.shown)
  on_select-ShownBy r failed p = tt
  on_select-ShownBy r (ready stdin socket) p =
      elim has_pty
        as (λ b.
          ShownBy (if b then on_stdin r stdin socket p else on_socket r socket p) p.shown
            (text_of r.log)) [
              | true ↦ on_stdin-ShownBy r stdin socket p
              | false ↦ on_socket-ShownBy r socket p
            ]

  propagate-shown : (r : Round) (p : Pane) → (propagate has_pty r p).shown ≡ p.shown
  propagate-shown r p = ground arith

  watch_round-ShownBy :
      (r : Round) (p : Pane) → ShownBy (watch_round has_pty r p) p.shown (read_in r)
  unfolding watch_round
  watch_round-ShownBy r p =
      elim (r.interrupted)
        as (λ b.
          ShownBy (if b then cancelled p else on_select has_pty r r.select (propagate has_pty r p))
            p.shown (read_in r)) [
              | true ↦ tt
              | false ↦
                  subst
                    (λ old.
                      ShownBy (on_select has_pty r r.select (propagate has_pty r p)) old
                        (read_in r))
                    (propagate-shown r p) (on_select-ShownBy r r.select (propagate has_pty r p))
            ]

  Continues-shown :
      (rs : List Round) (p q : Pane) → Continues has_pty rs p q → q.shown ≡ p.shown ++ logs rs
  Continues-shown [] p q h = ap (λ t. t.shown) (sym h) ∙ sym (append-nil p.shown)
  Continues-shown (r ∷ rs) p t (q, e, h) =
      Continues-shown rs q t h
      ∙ ap (λ s. s ++ logs rs)
          (subst (λ n. ShownBy n p.shown (read_in r)) e (watch_round-ShownBy r p))
      ∙ append_assoc p.shown (read_in r) (logs rs)

  abbrev closing : Round → Pane → Pane
  closing r p = show (drain r.rest) (propagate has_pty r p)

  on_select-closed :
      (r : Round) (p : Pane)
      → on_select has_pty r (ready none (some (some []))) p ≡ broken (show (drain r.rest) p)
  unfolding on_select on_stdin on_socket
  on_select-closed r p = ground arith

  watch_round-closed :
      (r : Round) (p : Pane)
      → r.interrupted ≡ false
      → r.select ≡ ready none (some (some []))
      → watch_round has_pty r p ≡ broken (closing r p)
  unfolding watch_round
  watch_round-closed r p i e =
      ap (λ b. if b then cancelled p else on_select has_pty r r.select (propagate has_pty r p)) i
      ∙ ap (λ a. on_select has_pty r a (propagate has_pty r p)) e
      ∙ on_select-closed r (propagate has_pty r p)

  watch-broken :
      (r : Round) (more : List Round) (p t : Pane)
      → watch_round has_pty r p ≡ broken t
      → watch has_pty (r ∷ more) p ≡ broken t
  unfolding watch
  watch-broken r more p t h = rw (watch, h) refl

  -- When the daemon closes the socket after rounds that all go on, and neither SIGINT nor input
  -- comes in that round, the loop ends by itself, and the pane has shown all that was read of the
  -- log, in order, with what was left in it at the end.
  pub watch-shown :
      (rs : List Round) (r : Round) (more : List Round) (p q : Pane)
      → Continues has_pty rs p q
      → r.interrupted ≡ false
      → r.select ≡ ready none (some (some []))
      → (t : Pane) × (watch has_pty (rs ++ r ∷ more) p ≡ broken t)
        × (t.shown ≡ p.shown ++ (logs rs ++ drain r.rest))
  watch-shown rs r more p q h i e = (
    closing r q,
    watch-append has_pty rs (r ∷ more) p q h
        ∙ watch-broken r more q (closing r q) (watch_round-closed r q i e),
    ap (λ s. s ++ drain r.rest) (propagate-shown r q ∙ Continues-shown rs p q h)
        ∙ append_assoc p.shown (logs rs) (drain r.rest),
  )
