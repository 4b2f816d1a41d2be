-- ===== src/Mux/Spawn/Herdr.antt =====
-- When `spawn_herdr` of src/mux.rs succeeds, and which pane it runs the watch command in.
use direnv_instant.Prelude.{
  Text, codes, true, Option, none, some, List, [], ◌∷◌, ◌++◌, ◌≡◌, ◌↔◌, refl, ap, subst, sym, ◌∙◌,
  arith, ◌>>=◌, Bool-cases, inl, inr, some-injective, append_assoc,
}
use direnv_instant.Env.{Env}
use direnv_instant.Mux.Json.{Tinyjson, Float, json_get, parse_pane_id}
use direnv_instant.Mux.Spawn.{
  Call, output, spawn, Output, Answers, bin_of, watch_cmd, run_command, split_command, or_default,
  after_split, run_in_pane, spawn_herdr, herdr_split_ratio,
}
use direnv_instant.Daemon.Context.{DaemonContext}

-- Inversion of a bind.
>>=-eq-some {ℓ κ} :
    {A : Type ℓ} {B : Type κ} (m : Option A) (f : A → Option B) {b : B}
    → (m >>= f) ≡ some b
    → (a : A) × (m ≡ some a) × (f a ≡ some b)
>>=-eq-some none f h = absurd (cc)
>>=-eq-some (some a) f h = (a, refl, h)

>>=-some {ℓ κ} :
    {A : Type ℓ} {B : Type κ} (m : Option A) (f : A → Option B) {a : A} {b : B}
    → m ≡ some a
    → f a ≡ some b
    → (m >>= f) ≡ some b
>>=-some m f e h = rw (e, ◌>>=◌) h

module _ {Number : Type 0} (json : Tinyjson Number) where
  open json use {Value, parse, object, string}

  -- The value that stands at a path of keys below another.
  pub data At : Value → List Text → Value → Type 0 where
    here : (v : Value) → At v [] v
    below :
        (v w x : Value) (key : Text) (path : List Text) (fields : Text → Option Value)
        → object v ≡ some fields
        → fields key ≡ some w
        → At w path x
        → At v (key ∷ path) x

  json_get-At :
      (v : Value) (path : List Text) (x : Value) → json_get json v path ≡ some x → At v path x
  unfolding json_get
  json_get-At v [] x h = subst (At v []) (some-injective _ _ h) (here v)
  json_get-At v (key ∷ path) x h =
      let (fields, e, h') = >>=-eq-some (object v) _ h in
      let (w, k, h'') = >>=-eq-some (fields key) _ h' in
      below v w x key path fields e k (json_get-At w path x h'')

  At-json_get : {v x : Value} {path : List Text} → At v path x → json_get json v path ≡ some x
  unfolding json_get
  At-json_get (here v) = refl
  At-json_get (below v w x key path fields e k at) =
      >>=-some (object v) _ e (>>=-some (fields key) _ k (At-json_get at))

  abbrev pub pane_id_path : List Text
  pane_id_path = codes "result" ∷ codes "pane" ∷ codes "pane_id" ∷ []

  -- The text is JSON with this string below `result`, `pane`, `pane_id`.
  abbrev pub NamesPane : Text → Text → Type 0
  NamesPane text id =
      (v w : Value) × (parse text ≡ some v) × At v pane_id_path w × (string w ≡ some id)

  parse_pane_id-NamesPane :
      (text id : Text) → (parse_pane_id json text ≡ some id) ↔ NamesPane text id
  unfolding parse_pane_id
  parse_pane_id-NamesPane text id = (
    λ h.
        let (v, parsed, h') = >>=-eq-some (parse text) _ h in
        let (w, found, named) = >>=-eq-some (json_get json v pane_id_path) string h' in
        (v, w, parsed, json_get-At v pane_id_path w found, named),
    λ (v, w, parsed, at, named).
        >>=-some (parse text) _ parsed
          (>>=-some (json_get json v pane_id_path) string (At-json_get at) named),
  )

module _ (float : Float) (json : Tinyjson float.Number) (env : Env) (a : Answers)
    (ctx : DaemonContext) where
  -- A split that succeeded and named a pane, in which the watch command could be started.
  abbrev pub Splits : Output → Text → Type 0
  Splits out id =
      (a.split ≡ some out)
      × (out.success ≡ true)
      × NamesPane json out.stdout id
      × (a.spawned ≡ true)

  run_in_pane-ok :
      (id : Option Text)
      → (run_in_pane a ctx id).1 ≡ none
      → (pane_id : Text) × (id ≡ some pane_id) × (a.spawned ≡ true)
  unfolding run_in_pane
  run_in_pane-ok none h = absurd (cc)
  run_in_pane-ok (some pane_id) h = (pane_id, refl, ground arith)

  after_split-ok :
      (split : Option Output)
      → (after_split float json a ctx split).1 ≡ none
      → (out : Output) × (pane_id : Text) × (split ≡ some out)
        × (out.success ≡ true)
        × (parse_pane_id json out.stdout ≡ some pane_id)
        × (a.spawned ≡ true)
  unfolding after_split
  after_split-ok none h = absurd (cc)
  after_split-ok (some out) h = elim (Bool-cases out.success) [
    | inl good ↦
        let (pane_id, e, s) = run_in_pane-ok (parse_pane_id json out.stdout) (rw good at h) in
        (out, pane_id, refl, good, e, s)
    | inr bad ↦ absurd (cc (rw bad at h))
  ]

  after_split-Splits :
      (out : Output) (id : Text)
      → Splits out id
      → after_split float json a ctx a.split
        ≡ (spawn (run_command id (watch_cmd (bin_of a) ctx)) ∷ [], none)
  unfolding after_split run_in_pane
  after_split-Splits out id (split, good, names, spawned) =
      rw (split, after_split, good, (parse_pane_id-NamesPane json out.stdout id).1 names, spawned)

  -- `spawn_herdr` succeeds exactly when the split succeeded, its output is JSON with a string below
  -- `result`, `pane`, `pane_id`, and the command to run in the pane could be started; every other
  -- answer is an error.
  pub spawn_herdr-ok :
      ((spawn_herdr float json env a ctx).1 ≡ none) ↔ ((out : Output) × (id : Text) × Splits out id)
  unfolding spawn_herdr
  spawn_herdr-ok = (
    λ h.
        let (out, id, split, good, named, spawned) = after_split-ok a.split h in
        (out, id, (split, good, (parse_pane_id-NamesPane json out.stdout id).0 named, spawned)),
    λ (out, id, s). ap (λ r. r.1) (after_split-Splits out id s),
  )

  -- The watch command is run in the pane that the split named.
  pub spawn_herdr-runs :
      (out : Output) (id : Text)
      → Splits out id
      → (before : List Call) × ((spawn_herdr float json env a ctx).0
          ≡ before ++ spawn (run_command id (watch_cmd (bin_of a) ctx)) ∷ [])
  unfolding spawn_herdr
  spawn_herdr-runs out id s =
      let (calls, ratio) = herdr_split_ratio float json env a in
      let split = output (split_command (float.three_digits (or_default float json ratio))) in
      (
        calls ++ split ∷ [],
        ap (λ r. calls ++ (split ∷ r.0)) (after_split-Splits out id s)
            ∙ sym (
                append_assoc calls (split ∷ [])
                  (spawn (run_command id (watch_cmd (bin_of a) ctx)) ∷ [])),
      )
