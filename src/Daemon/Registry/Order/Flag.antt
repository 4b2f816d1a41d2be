-- ===== src/Daemon/Registry/Order/Flag.antt =====
-- The stop flag behind two shells that leave, in either order.
use direnv_instant.Prelude.{
  ℤ, int_eq, int_eq_iff, Bool, false, not, ◌&&◌, ◌||◌, List, [], ◌∷◌, ◌≡◌, refl, sym, ap, ◌∙◌,
  arith, Bool-cases, inl, inr,
}
use direnv_instant.Daemon.Registry.{Shared, contains, is_empty, unregister}
use direnv_instant.Daemon.Registry.Pids.{erase, NodupPids, contains-erase}
use direnv_instant.Daemon.Registry.View.{unregister_absent, unregister_present}

-- The shell is registered, and no other one is.
unfoldable pub takes_last : ℤ → List ℤ → Bool
unfolding erase contains
takes_last p pids = contains pids p && is_empty (erase p pids)

erase_absent : (pids : List ℤ) (p : ℤ) → contains pids p ≡ false → erase p pids ≡ pids
unfolding erase contains
erase_absent [] p h = refl
erase_absent (x ∷ pids) p h = ground (arith, erase_absent pids p)

pub unregister-should_stop :
    (p : ℤ) (s : Shared)
    → (unregister p s).should_stop ≡ (takes_last p s.notify_pids || s.should_stop)
unfolding takes_last
unregister-should_stop p s = elim (Bool-cases (contains s.notify_pids p)) [
  | inl old ↦ ground (arith, unregister_present p s old)
  | inr new ↦ ground (arith, unregister_absent p s new)
]

pub unregister-notify_pids :
    (p : ℤ) (s : Shared) → (unregister p s).notify_pids ≡ erase p s.notify_pids
unregister-notify_pids p s = elim (Bool-cases (contains s.notify_pids p)) [
  | inl old ↦ ap (λ t. t.notify_pids) (unregister_present p s old)
  | inr new ↦
      ap (λ t. t.notify_pids) (unregister_absent p s new) ∙ sym (erase_absent s.notify_pids p new)
]

-- Lists that hold the same shells are empty together.
pub is_empty_eq :
    (xs ys : List ℤ) → ((q : ℤ) → contains xs q ≡ contains ys q) → is_empty xs ≡ is_empty ys
unfolding contains
is_empty_eq [] [] h = refl
is_empty_eq [] (y ∷ ys) h = ground (arith, h y, int_eq_iff y y)
is_empty_eq (x ∷ xs) [] h = ground (arith, h x, int_eq_iff x x)
is_empty_eq (x ∷ xs) (y ∷ ys) h = refl

pub takes_last_eq :
    (p : ℤ) (xs ys : List ℤ)
    → NodupPids xs
    → NodupPids ys
    → ((q : ℤ) → contains xs q ≡ contains ys q)
    → takes_last p xs ≡ takes_last p ys
unfolding takes_last
takes_last_eq p xs ys nx ny h =
    ap (λ b. b && is_empty (erase p xs)) (h p)
    ∙ ap (λ b. contains ys p && b)
        (is_empty_eq (erase p xs) (erase p ys) (λ q.
          contains-erase xs p q nx
          ∙ ap (λ b. not (int_eq p q) && b) (h q)
          ∙ sym (contains-erase ys p q ny)))

-- A shell that leaves a longer list leaves some behind.
one_left : (p x y : ℤ) (pids : List ℤ) → is_empty (erase p (x ∷ y ∷ pids)) ≡ false
unfolding erase
one_left p x y pids = ground arith

two_left : (p q x y z : ℤ) (pids : List ℤ) → is_empty (erase p (erase q (x ∷ y ∷ z ∷ pids))) ≡ false
unfolding erase
two_left p q x y z pids = ground arith

pub takes_last_comm :
    (p q : ℤ) (pids : List ℤ)
    → (takes_last p (erase q pids) || takes_last q pids)
      ≡ (takes_last q (erase p pids) || takes_last p pids)
unfolding takes_last erase contains
takes_last_comm p q [] = refl
takes_last_comm p q (x ∷ []) = ground (arith, int_eq_iff x p, int_eq_iff x q)
takes_last_comm p q (x ∷ y ∷ []) =
    ground (arith, int_eq_iff x p, int_eq_iff x q, int_eq_iff y p, int_eq_iff y q)
takes_last_comm p q (x ∷ y ∷ z ∷ pids) =
    rw
      (
        two_left p q x y z pids,
        two_left q p x y z pids,
        one_left p x y (z ∷ pids),
        one_left q x y (z ∷ pids),
      )
      (ground arith)
