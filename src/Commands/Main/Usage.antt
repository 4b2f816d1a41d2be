-- ===== src/Commands/Main/Usage.antt =====
-- Which arguments src/main.rs takes, and which get a usage line.
use direnv_instant.Prelude.{
  ℕ, suc, Text, codes, text_eq, text_eq_iff, true, false, List, [], ◌∷◌, ◌≡◌, ◌≢◌, ◌⊎◌, inl, inr,
  refl, sym, subst, arith, length, ltb, ◌≤◌, Bool-cases, ne_of_text_eq,
}
use direnv_instant.Commands.Main.{
  Dispatch, to_start, to_stop, to_watch, to_hook, usage, out_of_bounds, dispatch,
}

-- A command, and for two of them enough arguments behind it.
abbrev pub IsCommand : List Text → Type 0
IsCommand [] = ⊥
IsCommand (command ∷ rest) =
    (command ≡ codes "start")
    ⊎ (command ≡ codes "stop")
    ⊎ ((command ≡ codes "watch") × (2 ≤ length rest))
    ⊎ ((command ≡ codes "hook") × (1 ≤ length rest))

-- The outcome is a command, with the arguments that it takes.
abbrev pub Runs : List Text → Dispatch → Type 0
Runs args to_start = (rest : List Text) × (args ≡ codes "start" ∷ rest)
Runs args to_stop = (rest : List Text) × (args ≡ codes "stop" ∷ rest)
Runs args (to_watch log socket) = (rest : List Text) × (args ≡ codes "watch" ∷ log ∷ socket ∷ rest)
Runs args (to_hook shell) = (rest : List Text) × (args ≡ codes "hook" ∷ shell ∷ rest)
Runs args (usage line) = ¬ IsCommand args
Runs args out_of_bounds = ⊥

not-IsCommand :
    (command : Text) (rest : List Text)
    → command ≢ codes "start"
    → command ≢ codes "stop"
    → ¬ ((command ≡ codes "watch") × (2 ≤ length rest))
    → ¬ ((command ≡ codes "hook") × (1 ≤ length rest))
    → ¬ IsCommand (command ∷ rest)
not-IsCommand command rest n1 n2 n3 n4 (inl e) = n1 e
not-IsCommand command rest n1 n2 n3 n4 (inr (inl e)) = n2 e
not-IsCommand command rest n1 n2 n3 n4 (inr (inr (inl e))) = n3 e
not-IsCommand command rest n1 n2 n3 n4 (inr (inr (inr e))) = n4 e

module _ (bin : Text) where
  on_watch :
      (rest : List Text) → Runs (codes "watch" ∷ rest) (dispatch (bin ∷ codes "watch" ∷ rest))
  unfolding dispatch
  on_watch [] =
      not-IsCommand (codes "watch") [] (ne_of_text_eq _ _ refl) (ne_of_text_eq _ _ refl)
        (λ (e, k). absurd (omega arith)) (λ (e, k). ne_of_text_eq _ _ refl e)
  on_watch (a ∷ []) =
      not-IsCommand (codes "watch") (a ∷ []) (ne_of_text_eq _ _ refl) (ne_of_text_eq _ _ refl)
        (λ (e, k). absurd (omega arith)) (λ (e, k). ne_of_text_eq _ _ refl e)
  on_watch (a ∷ b ∷ rest) = rw (many (length rest)) (rest, refl)
    where
      many : (n : ℕ) → ltb (suc (suc (suc (suc n)))) 4 ≡ false
      many n = ground arith

  on_hook : (rest : List Text) → Runs (codes "hook" ∷ rest) (dispatch (bin ∷ codes "hook" ∷ rest))
  unfolding dispatch
  on_hook [] =
      not-IsCommand (codes "hook") [] (ne_of_text_eq _ _ refl) (ne_of_text_eq _ _ refl)
        (λ (e, k). ne_of_text_eq _ _ refl e) (λ (e, k). absurd (omega arith))
  on_hook (a ∷ rest) = rw (many (length rest)) (rest, refl)
    where
      many : (n : ℕ) → ltb (suc (suc (suc n))) 3 ≡ false
      many n = ground arith

  on_other :
      (command : Text) (rest : List Text)
      → text_eq command (codes "start") ≡ false
      → text_eq command (codes "stop") ≡ false
      → text_eq command (codes "watch") ≡ false
      → text_eq command (codes "hook") ≡ false
      → Runs (command ∷ rest) (dispatch (bin ∷ command ∷ rest))
  unfolding dispatch
  on_other command rest a b c d =
      rw (a, b, c, d)
        (not-IsCommand command rest (ne_of_text_eq _ _ a) (ne_of_text_eq _ _ b)
          (λ (e, k). ne_of_text_eq _ _ c e) (λ (e, k). ne_of_text_eq _ _ d e))

  named :
      (command word : Text) (rest : List Text)
      → text_eq command word ≡ true
      → Runs (word ∷ rest) (dispatch (bin ∷ word ∷ rest))
      → Runs (command ∷ rest) (dispatch (bin ∷ command ∷ rest))
  named command word rest e h =
      subst (λ c. Runs (c ∷ rest) (dispatch (bin ∷ c ∷ rest)))
        (sym ((text_eq_iff command word).0 e)) h

  on_start :
      (rest : List Text) → Runs (codes "start" ∷ rest) (dispatch (bin ∷ codes "start" ∷ rest))
  unfolding dispatch
  on_start rest = (rest, refl)

  on_stop : (rest : List Text) → Runs (codes "stop" ∷ rest) (dispatch (bin ∷ codes "stop" ∷ rest))
  unfolding dispatch
  on_stop rest = (rest, refl)

  no_command : Runs [] (dispatch (bin ∷ []))
  unfolding dispatch
  no_command h = h

  -- With the name of the program in front, the arguments of a command run this command, with the
  -- paths or the shell that they name; the usage line is for those that are no command or too few;
  -- and no index is out of bounds.
  pub dispatch-Runs : (args : List Text) → Runs args (dispatch (bin ∷ args))
  dispatch-Runs [] = no_command
  dispatch-Runs (command ∷ rest) = elim (Bool-cases (text_eq command (codes "start"))) [
    | inl e ↦ named command (codes "start") rest e (on_start rest)
    | inr a ↦ elim (Bool-cases (text_eq command (codes "stop"))) [
      | inl e ↦ named command (codes "stop") rest e (on_stop rest)
      | inr b ↦ elim (Bool-cases (text_eq command (codes "watch"))) [
        | inl e ↦ named command (codes "watch") rest e (on_watch rest)
        | inr c ↦ elim (Bool-cases (text_eq command (codes "hook"))) [
          | inl e ↦ named command (codes "hook") rest e (on_hook rest)
          | inr d ↦ on_other command rest a b c d
        ]
      ]
    ]
  ]
