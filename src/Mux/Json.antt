-- ===== src/Mux/Json.antt =====
-- What src/mux.rs takes out of the JSON that herdr prints. The parser is the crate tinyjson, and the
-- numbers are `f64`: both are interfaces that the definitions take.
use direnv_instant.Prelude.{
  Text, codes, text_eq, Bool, false, Option, none, some, List, [], ◌∷◌, if◌then◌else◌, ◌>>=◌,
}

-- `JsonValue`: `str::parse`, and `get` at the types that the program asks for.
pub record Tinyjson (Number : Type 0) : Type 1 where
  pub Value : Type 0
  pub parse : Text → Option Value
  pub object : Value → Option (Text → Option Value)  -- `get::<HashMap<String, JsonValue>>`
  pub array : Value → Option (List Value)
  pub string : Value → Option Text
  pub number : Value → Option Number

-- What the program does with an `f64`.
pub record Float : Type 1 where
  pub Number : Type 0
  pub literal : Text → Number  -- the number of a decimal literal
  pub minus : Number → Number → Number
  pub over : Number → Number → Number
  pub greater : Number → Number → Bool
  pub clamp : Number → Number → Number → Number
  pub three_digits : Number → Text  -- `format!("{:.3}", x)`

-- `iter().find(test)`
abbrev pub find {ℓ} : {A : Type ℓ} → (A → Bool) → List A → Option A
find test [] = none
find test (x ∷ xs) = if test x then some x else find test xs

-- `is_some_and(|id| id == wanted)`
abbrev pub is_some_and_eq : Text → Option Text → Bool
is_some_and_eq wanted none = false
is_some_and_eq wanted (some id) = text_eq id wanted

module _ {Number : Type 0} (json : Tinyjson Number) where
  open json use {Value, parse, object, array, string, number}

  -- `json_get`
  unfoldable pub json_get : Value → List Text → Option Value
  json_get v [] = some v
  json_get v (key ∷ path) = object v >>= λ fields. fields key >>= λ w. json_get w path

  -- `parse_pane_id`
  unfoldable pub parse_pane_id : Text → Option Text
  unfolding json_get
  parse_pane_id text = parse text >>= λ value.
      json_get value (codes "result" ∷ codes "pane" ∷ codes "pane_id" ∷ []) >>= string

  abbrev is_pane : Text → Value → Bool
  unfolding json_get
  is_pane pane_id p = is_some_and_eq pane_id (json_get p (codes "pane_id" ∷ []) >>= string)

  abbrev filter_positive : (Number → Bool) → Number → Option Number
  filter_positive positive rows = if positive rows then some rows else none

  -- `parse_pane_height`; `positive` is the test for a number above zero.
  unfoldable pub parse_pane_height : (Number → Bool) → Text → Text → Option Number
  unfolding json_get is_pane
  parse_pane_height positive text pane_id = parse text >>= λ value.
      json_get value (codes "result" ∷ codes "layout" ∷ codes "panes" ∷ [])
      >>= array
      >>= find (is_pane pane_id)
      >>= λ pane.
          json_get pane (codes "rect" ∷ codes "height" ∷ []) >>= number >>= filter_positive positive
