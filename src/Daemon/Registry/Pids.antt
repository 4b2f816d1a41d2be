-- ===== src/Daemon/Registry/Pids.antt =====
-- The list of registered pids as a set without repetitions.
use direnv_instant.Prelude.{
  ℕ, suc, ℤ, int_eq, int_eq_iff, true, false, not, ◌&&◌, ◌||◌, none, some, List, [], ◌∷◌, ◌++◌, ◌≡◌,
  refl, arith, if◌then◌else◌, Bool-cases, inl, inr,
}
use direnv_instant.Daemon.Registry.{contains, position, remove}

-- The list without the first occurrence of the pid.
unfoldable pub erase : ℤ → List ℤ → List ℤ
erase pid [] = []
erase pid (p ∷ pids) = if int_eq p pid then pids else p ∷ erase pid pids

abbrev pub NodupPids : List ℤ → Type 0
NodupPids [] = Unit
NodupPids (p ∷ pids) = (contains pids p ≡ false) × NodupPids pids

pub contains-append :
    (pids : List ℤ) (p q : ℤ) → contains (pids ++ p ∷ []) q ≡ (int_eq p q || contains pids q)
unfolding contains
contains-append [] p q = refl
contains-append (x ∷ pids) p q = ground (arith, contains-append pids p q)

pub position_absent : (pids : List ℤ) (p : ℤ) → contains pids p ≡ false → position p pids ≡ none
unfolding contains position
position_absent [] p h = refl
position_absent (x ∷ pids) p h = ground (arith, position_absent pids p)

pub position_present :
    (pids : List ℤ) (p : ℤ)
    → contains pids p ≡ true
    → (i : ℕ) × (position p pids ≡ some i) × (remove i pids ≡ erase p pids)
unfolding contains position remove erase
position_present [] p h = cc
position_present (x ∷ pids) p h = elim (Bool-cases (int_eq x p)) [
  | inl same ↦ (0, rw same, rw same)
  | inr other ↦
      let (i, found, gone) = position_present pids p (ground arith) in
      (suc i, ground arith, ground arith)
]

pub contains-erase :
    (pids : List ℤ) (p q : ℤ)
    → NodupPids pids
    → contains (erase p pids) q ≡ (not (int_eq p q) && contains pids q)
unfolding contains erase
contains-erase [] p q nodup = ground arith
contains-erase (x ∷ pids) p q (fresh, nodup) =
    ground (arith, contains-erase pids p q nodup, int_eq_iff x p, int_eq_iff x q, int_eq_iff p q)

pub erase-NodupPids : (pids : List ℤ) (p : ℤ) → NodupPids pids → NodupPids (erase p pids)
unfolding erase
erase-NodupPids [] p nodup = nodup
erase-NodupPids (x ∷ pids) p (fresh, nodup) =
    ground (arith, erase-NodupPids pids p nodup, contains-erase pids p x nodup)

pub append-NodupPids :
    (pids : List ℤ) (p : ℤ) → contains pids p ≡ false → NodupPids pids → NodupPids (pids ++ p ∷ [])
unfolding contains
append-NodupPids [] p h nodup = ground arith
append-NodupPids (x ∷ pids) p h (fresh, nodup) =
    ground
      (arith, append-NodupPids pids p, contains-append pids p x, int_eq_iff x p, int_eq_iff p x)
