-- ===== src/Commands/Envrc.antt =====
-- `find_envrc` of src/commands/start.rs: the nearest directory with an .envrc, and what it finds.
use direnv_instant.Prelude.{
  ℕ, Text, codes, Bool, true, false, Option, none, some, List, [], ◌∷◌, ◌++◌, ◌≡◌, ◌↔◌,
  if◌then◌else◌, ◌>>=◌, Bool-cases, inl, inr, ap, ◌∙◌, sym, some-injective, subst, text_eq, ◌==◌,
  ◌||◌, ◌&&◌,
}
use direnv_instant.Daemon.Files.{join}

-- The path of a directory below the root, given by its components, the innermost first.
unfoldable pub path_of : List Text → Text
unfolding join
path_of [] = codes "/"
path_of (name ∷ above) = join (path_of above) name

-- `dir.join(".envrc").exists()`
unfoldable pub has_envrc : (Text → Bool) → List Text → Bool
unfolding path_of join
has_envrc exists dir = exists (join (path_of dir) (codes ".envrc"))

-- The loop: `pop` takes the innermost component, and fails at the root.
unfoldable pub find_from : (Text → Bool) → List Text → Option (List Text)
unfolding has_envrc
find_from exists [] = if has_envrc exists [] then some [] else none
find_from exists (name ∷ above) =
    let rest = find_from exists above in
    if has_envrc exists (name ∷ above) then some (name ∷ above) else rest

-- `find_envrc`
unfoldable pub find_envrc : (Text → Bool) → Option (List Text) → Option (List Text)
unfolding find_from
find_envrc exists current_dir = current_dir >>= find_from exists

-- `Path` compares the components: repeated separators, a separator at the end and a `.` behind the
-- first component make no difference.
abbrev push_segment : Text → List Text → List Text
push_segment [] segments = segments
push_segment (c ∷ s) segments = if text_eq (c ∷ s) (codes ".") then segments else (c ∷ s) ∷ segments

abbrev with_first : ℕ → List Text → List Text
with_first c [] = (c ∷ []) ∷ []
with_first c (s ∷ segments) = (c ∷ s) ∷ segments

-- `split('/')`
unfoldable pub split : Text → List Text
split [] = [] ∷ []
split (c ∷ s) = let rest = split s in if c == b'/' then [] ∷ rest else with_first c rest

abbrev normal : List Text → List Text
normal [] = []
normal (s ∷ segments) = push_segment s (normal segments)

-- A path that begins with `.` keeps it, and an absolute path begins with an empty segment.
abbrev components_of : List Text → List Text
components_of [] = []
components_of (s ∷ segments) =
    if text_eq s [] || text_eq s (codes ".") then s ∷ normal segments else normal (s ∷ segments)

unfoldable pub components : Text → List Text
unfolding split
components [] = []
components (c ∷ s) = components_of (split (c ∷ s))

abbrev segments_eq : List Text → List Text → Bool
segments_eq [] [] = true
segments_eq [] (t ∷ ts) = false
segments_eq (s ∷ ss) [] = false
segments_eq (s ∷ ss) (t ∷ ts) = text_eq s t && segments_eq ss ts

-- `a == b` for paths
unfoldable pub same_path : Text → Text → Bool
unfolding components
same_path a b = segments_eq (components a) (components b)

-- The directory above `above`, where no directory in `above` has an .envrc.
abbrev pub NoneBelow : (Text → Bool) → List Text → List Text → Type 0
NoneBelow exists [] dir = Unit
NoneBelow exists (name ∷ above) dir =
    (has_envrc exists (name ∷ above ++ dir) ≡ false) × NoneBelow exists above dir

module _ (exists : Text → Bool) where
  abbrev Nearest : List Text → List Text → Type 0
  Nearest dir found =
      (has_envrc exists found ≡ true)
      × ((below : List Text) × (dir ≡ below ++ found) × NoneBelow exists below found)

  find_here : (dir : List Text) → has_envrc exists dir ≡ true → find_from exists dir ≡ some dir
  unfolding find_from
  find_here [] h = rw (h)
  find_here (name ∷ above) h = rw (h)

  find_above :
      (name : Text) (above : List Text)
      → has_envrc exists (name ∷ above) ≡ false
      → find_from exists (name ∷ above) ≡ find_from exists above
  unfolding find_from
  find_above name above h = rw (h)

  find_nowhere : has_envrc exists [] ≡ false → find_from exists [] ≡ none
  unfolding find_from
  find_nowhere h = rw (h)

  found_here :
      (dir found : List Text)
      → find_from exists dir ≡ some found
      → has_envrc exists dir ≡ true
      → Nearest dir found
  found_here dir found e h =
      let same = some-injective _ _ (sym (find_here dir h) ∙ e) in
      (subst (λ d. has_envrc exists d ≡ true) same h, ([], same, tt))

  extended :
      (name : Text) (above found : List Text)
      → has_envrc exists (name ∷ above) ≡ false
      → Nearest above found
      → Nearest (name ∷ above) found
  extended name above found lacks (h, (below, e, clear)) = (
    h,
    (
      name ∷ below,
      ap (λ d. name ∷ d) e,
      (subst (λ d. has_envrc exists (name ∷ d) ≡ false) e lacks, clear),
    ),
  )

  find_from-Nearest :
      (dir found : List Text) → find_from exists dir ≡ some found → Nearest dir found
  find_from-Nearest [] found e = elim (Bool-cases (has_envrc exists [])) [
    | inl h ↦ found_here [] found e h
    | inr h ↦ absurd (cc (e, find_nowhere h))
  ]
  find_from-Nearest (name ∷ above) found e = elim (Bool-cases (has_envrc exists (name ∷ above))) [
    | inl h ↦ found_here (name ∷ above) found e h
    | inr h ↦
        extended name above found h
          (find_from-Nearest above found (sym (find_above name above h) ∙ e))
  ]

  NoneBelow-find_from :
      (below found : List Text)
      → has_envrc exists found ≡ true
      → NoneBelow exists below found
      → find_from exists (below ++ found) ≡ some found
  NoneBelow-find_from [] found h _ = find_here found h
  NoneBelow-find_from (name ∷ below) found h (lacks, clear) =
      find_above name (below ++ found) lacks ∙ NoneBelow-find_from below found h clear

  -- A directory is found exactly when it is the current one or above it, holds an .envrc, and no
  -- directory between the two does.
  pub find_envrc-nearest :
      (dir found : List Text)
      → (find_envrc exists (some dir) ≡ some found) ↔ (
          (has_envrc exists found ≡ true)
          × ((below : List Text) × (dir ≡ below ++ found) × NoneBelow exists below found))
  unfolding find_envrc
  find_envrc-nearest dir found = (
    find_from-Nearest dir found,
    λ (h, (below, e, clear)). ap (find_from exists) e ∙ NoneBelow-find_from below found h clear,
  )
